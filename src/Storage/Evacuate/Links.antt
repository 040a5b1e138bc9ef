-- ===== src/Storage/Evacuate/Links.antt =====
-- That a promotion makes no link: what is a link afterwards was the same link before.
use shado_cloud.Storage.Promoted.{promote_found-Throughout}
use shado_cloud.Storage.Traces.{now_at, Throughout, call-Throughout}
use shado_cloud.Storage.{Answers, copy_remains, undo_promote, copy_back, promote}
use shado_cloud.Common.{
  Bool-cases, Text, path_eq, ℕ, ◌≡◌, refl, sym, ap, ◌∙◌, subst, inl, inr, false, Option, none, some,
  List,
}
use shado_cloud.Storage.FileSystem.{
  file, link, Disk, at, put, remove, place_of, copy_file, rename, rm_file,
}
use shado_cloud.Storage.FileSystem.Calls.{
  at-put, at-remove, at-put_same, at-put_other, at-remove_other, is_link, copy_file-eq, rename-eq,
  rm_file-eq, some_inj,
}

unfoldable pub NoNewLink : Disk → Disk → Type 0
NoNewLink d e = (q t : List Text) → at q e ≡ some (link t) → at q d ≡ some (link t)

module _ (d : Disk) where
  NoNewLink-put :
      (e : Disk) (x : List Text) (content : Text) (time : ℕ)
      → NoNewLink d e
      → NoNewLink d (put x (file content time) e)
  unfolding NoNewLink
  NoNewLink-put e x content time old q t h = elim (Bool-cases (path_eq x q)) [
    | inl same ↦
        let here : at q (put x (file content time) e) ≡ some (file content time) =
          at-put q x (file content time) e ∙ rw same refl in
        cc
    | inr other ↦ old q t (sym (at-put_other x q (file content time) e other) ∙ h)
  ]

  NoNewLink-remove : (e : Disk) (x : List Text) → NoNewLink d e → NoNewLink d (remove x e)
  unfolding NoNewLink
  NoNewLink-remove e x old q t h = elim (Bool-cases (path_eq x q)) [
    | inl same ↦ let here : at q (remove x e) ≡ none = at-remove q x e ∙ rw same refl in cc
    | inr other ↦ old q t (sym (at-remove_other x q e other) ∙ h)
  ]

  NoNewLink-rm_file :
      (x : List Text) (e f : Disk) → NoNewLink d e → rm_file x e ≡ some f → NoNewLink d f
  NoNewLink-rm_file x e f old h = subst (NoNewLink d) (rm_file-eq x e h) (NoNewLink-remove e x old)

  NoNewLink-remains :
      (partial : Option Text) (tmp : List Text) (now : ℕ) (e : Disk)
      → NoNewLink d e
      → NoNewLink d (copy_remains partial tmp now e)
  unfolding copy_remains
  NoNewLink-remains none tmp now e old = old
  NoNewLink-remains (some content) tmp now e old =
      NoNewLink-put e (place_of tmp (at tmp e)) content now old

module _ (a : Answers) (tmp : List Text) (now : ℕ) (path : List Text) (d : Disk) where
  NoNewLink-undo : (e : Disk) → NoNewLink d e → Throughout (NoNewLink d) (undo_promote a tmp e)
  unfolding undo_promote Throughout
  NoNewLink-undo e old =
      call-Throughout (NoNewLink d) a.link_removed (rm_file tmp e) _ _
        (λ f h. (NoNewLink-rm_file d tmp e f old h, tt)) tt

  NoNewLink-copy_back :
      (size : ℕ) (target : List Text)
      → is_link (at tmp d) ≡ false
      → Throughout (NoNewLink d) (copy_back a size target tmp now path d)
  unfolding copy_back Throughout now_at NoNewLink
  NoNewLink-copy_back size target plain =
      call-Throughout (NoNewLink d) a.copy (copy_file target tmp now d) _ _
        (λ d1 e.
          let (content, source, e1) = copy_file-eq target tmp now d plain e in
          let at_tmp : at tmp d1 ≡ some (file content now) =
            ap (at tmp) (sym e1) ∙ at-put_same tmp (file content now) d in
          let old1 : NoNewLink d d1 =
            subst (NoNewLink d) e1 (NoNewLink-put d d tmp content now (λ q t h. h)) in
          (
            old1,
            call-Throughout (NoNewLink d) a.renamed (rename tmp path d1) _ _
                (λ d2 f.
                  let (m, there, e2) = rename-eq tmp path d1 f in
                  let is_m : file content now ≡ m = some_inj (sym at_tmp ∙ there) in
                  let old2 : NoNewLink d d2 =
                    subst (NoNewLink d) (ap (λ x. put path x (remove tmp d1)) is_m ∙ e2) (
                      NoNewLink-put d (remove tmp d1) path content now
                        (NoNewLink-remove d d1 tmp old1)) in
                  (
                    old2,
                    call-Throughout (NoNewLink d) a.blob_removed (rm_file target d2) _ _
                        (λ d3 g. (NoNewLink-rm_file d target d2 d3 old2 g, tt)) tt,
                  ))
                (NoNewLink-undo d1 old1),
          ))
        (let old' = NoNewLink-remains d a.partial tmp now d (λ q t h. h) in
          (old', NoNewLink-undo (copy_remains a.partial tmp now d) old'))

  pub NoNewLink-promote :
      (drives : List Text)
      → is_link (at tmp d) ≡ false
      → Throughout (NoNewLink d) (promote a drives tmp now path d)
  unfolding promote
  NoNewLink-promote drives plain =
      promote_found-Throughout a (NoNewLink d) (at path d) drives tmp now path d
        (λ target e size. NoNewLink-copy_back size target plain)
