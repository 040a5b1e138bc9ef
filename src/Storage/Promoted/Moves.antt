-- ===== src/Storage/Promoted/Moves.antt =====
-- The calls of `promote` one after another, for a path that they have nothing to do with.
use shado_cloud.Common.{Text, ℕ, ◌≡◌, sym, subst, false, Option, none, some, List}
use shado_cloud.Storage.{Answers, copy_remains, undo_promote, copy_back}
use shado_cloud.Storage.FileSystem.{Node, file, Disk, at, put, copy_file, rename, rm_file}
use shado_cloud.Storage.FileSystem.Calls.{is_link, place_of_plain}
use shado_cloud.Storage.Traces.{now_at, Throughout, call-Throughout, Throughout-map}
use shado_cloud.Storage.Held.{Held, Clear, Held-put, Held-rm_file, Held-copy_file}

module _ (a : Answers) (target tmp : List Text) (now : ℕ) (path : List Text) where
  module _ (p : List Text) (n : Node) (c : Text) where
    undo_promote-Held :
        (d : Disk) → Clear tmp p n → Held p n c d → Throughout (Held p n c) (undo_promote a tmp d)
    unfolding undo_promote Throughout
    undo_promote-Held d at_tmp held =
        call-Throughout (Held p n c) a.link_removed (rm_file tmp d) _ _
          (λ d1 e. (Held-rm_file p n c tmp d d1 at_tmp held e, tt)) tt

    tmp_remains-Held :
        (partial : Option Text) (d : Disk)
        → Clear tmp p n
        → is_link (at tmp d) ≡ false
        → Held p n c d
        → Held p n c (copy_remains partial tmp now d)
    unfolding copy_remains
    tmp_remains-Held none d at_tmp plain held = held
    tmp_remains-Held (some content) d at_tmp plain held =
        subst (λ x. Held p n c (put x (file content now) d))
          (sym (place_of_plain tmp (at tmp d) plain))
          (Held-put tmp (file content now) p n c d at_tmp held)

    -- Up to the rename, and what is to be shown of the two calls after it.
    pub copy_back-Held :
        (P : Disk → Type 0) (size : ℕ) (d : Disk)
        → Clear tmp p n
        → is_link (at tmp d) ≡ false
        → ((e : Disk) → Held p n c e → P e)
        → ((d1 d2 : Disk)
            → copy_file target tmp now d ≡ some d1
            → Held p n c d1
            → rename tmp path d1 ≡ some d2
            → P d2 × ((d3 : Disk) → rm_file target d2 ≡ some d3 → P d3))
        → Held p n c d
        → Throughout P (copy_back a size target tmp now path d)
    unfolding copy_back Throughout now_at
    copy_back-Held P size d at_tmp plain fine after held =
        call-Throughout P a.copy (copy_file target tmp now d) _ _
          (λ d1 e.
            let held1 = Held-copy_file p n c target tmp now d d1 at_tmp plain held e in
            (
              fine d1 held1,
              call-Throughout P a.renamed (rename tmp path d1) _ _
                  (λ d2 f.
                    let (here, later) = after d1 d2 e held1 f in
                    (
                      here,
                      call-Throughout P a.blob_removed (rm_file target d2) _ _
                          (λ d3 g. (later d3 g, tt)) tt,
                    ))
                  (Throughout-map fine (undo_promote a tmp d1) (undo_promote-Held d1 at_tmp held1)),
            ))
          (let left = tmp_remains-Held a.partial d at_tmp plain held in
            let d' = copy_remains a.partial tmp now d in
            (
              fine d' left,
              Throughout-map fine (undo_promote a tmp d') (undo_promote-Held d' at_tmp left),
            ))
