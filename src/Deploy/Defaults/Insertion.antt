-- ===== src/Deploy/Defaults/Insertion.antt =====
-- What inserting the missing default steps does to a pipeline.
use shado_cloud.Common.{
  eq_refl, if◌then◌else◌, choose, any, keep, All, ◌≡◌, refl, ap, ◌∙◌, Bool, true, false, not,
  Option, none, some, List, [], ◌∷◌, ◌++◌, arith,
}
use shado_cloud.Deploy.State.{StepConfig}
use shado_cloud.Deploy.Defaults.{
  has_step_id, preceding, insert_step, insert_missing, has_id, place, insert_after, or_append,
  insert_each,
}

-- `ys` is `xs` with `d` put in somewhere.
data Inserted (d : StepConfig) : List StepConfig → List StepConfig → Type 0 where
  here : {xs : List StepConfig} → Inserted d xs (d ∷ xs)
  there :
      {x : StepConfig} {xs ys : List StepConfig} → Inserted d xs ys → Inserted d (x ∷ xs) (x ∷ ys)

abbrev AllInserted : StepConfig → List StepConfig → Option (List StepConfig) → Type 0
AllInserted d xs none = Unit
AllInserted d xs (some ys) = Inserted d xs ys

place-AllInserted :
    (before : Bool) (o : Option (List StepConfig)) (d x : StepConfig) (xs : List StepConfig)
    → AllInserted d xs o
    → AllInserted d (x ∷ xs) (place before o d x xs)
unfolding place
place-AllInserted before (some ys) d x xs h = there h
place-AllInserted true none d x xs h = there here
place-AllInserted false none d x xs h = tt

insert_after-AllInserted :
    (earlier : List StepConfig) (d : StepConfig) (xs : List StepConfig)
    → AllInserted d xs (insert_after earlier d xs)
unfolding insert_after
insert_after-AllInserted earlier d [] = tt
insert_after-AllInserted earlier d (x ∷ xs) =
    place-AllInserted (has_step_id x.step earlier) (insert_after earlier d xs) d x xs
      (insert_after-AllInserted earlier d xs)

last-Inserted : (d : StepConfig) (xs : List StepConfig) → Inserted d xs (xs ++ d ∷ [])
last-Inserted d [] = here
last-Inserted d (x ∷ xs) = there (last-Inserted d xs)

or_append-Inserted :
    (o : Option (List StepConfig)) (d : StepConfig) (xs : List StepConfig)
    → AllInserted d xs o
    → Inserted d xs (or_append o d xs)
unfolding or_append
or_append-Inserted (some ys) d xs h = h
or_append-Inserted none d xs h = last-Inserted d xs

insert_step-Inserted :
    (earlier : List StepConfig) (d : StepConfig) (xs : List StepConfig)
    → Inserted d xs (insert_step earlier d xs)
unfolding insert_step
insert_step-Inserted earlier d xs =
    or_append-Inserted (insert_after earlier d xs) d xs (insert_after-AllInserted earlier d xs)

any-Inserted :
    {d : StepConfig} {xs ys : List StepConfig} (q : StepConfig → Bool)
    → Inserted d xs ys
    → (q d ≡ true → any q ys ≡ true) × (any q xs ≡ true → any q ys ≡ true)
any-Inserted q here = (λ h. ground (arith, h), λ h. ground (arith, h))
any-Inserted q (there p) =
    let (new, old) = any-Inserted q p in (λ h. ground (arith, new h), λ h. ground (arith, old, h))

keep-Inserted :
    {d : StepConfig} {xs ys : List StepConfig} (q : StepConfig → Bool)
    → Inserted d xs ys
    → q d ≡ false
    → keep q ys ≡ keep q xs
keep-Inserted q here h = rw h refl
keep-Inserted q (there {x} p) h = ap (λ rest. if q x then x ∷ rest else rest) (keep-Inserted q p h)

any-insert_each :
    (q : StepConfig → Bool) (missing defaults merged : List StepConfig)
    → any q merged ≡ true
    → any q (insert_each missing defaults merged) ≡ true
unfolding insert_each
any-insert_each q [] defaults merged h = h
any-insert_each q (d ∷ ds) defaults merged h =
    any-insert_each q ds defaults _
      ((any-Inserted q (insert_step-Inserted (preceding d.step defaults) d merged)).1 h)

insert_each-All :
    (missing defaults merged : List StepConfig)
    → All (λ d. has_step_id d.step (insert_each missing defaults merged) ≡ true) missing
unfolding insert_each has_step_id has_id
insert_each-All [] defaults merged = tt
insert_each-All (d ∷ ds) defaults merged =
    let merged' = insert_step (preceding d.step defaults) d merged in
    (
      any-insert_each (has_id d.step) ds defaults merged' (
          (any-Inserted (has_id d.step)
              (insert_step-Inserted (preceding d.step defaults) d merged)).0
            (eq_refl d.step)),
      insert_each-All ds defaults merged',
    )

keep-insert_each :
    (q : StepConfig → Bool) (missing defaults merged : List StepConfig)
    → All (λ d. q d ≡ false) missing
    → keep q (insert_each missing defaults merged) ≡ keep q merged
unfolding insert_each
keep-insert_each q [] defaults merged h = refl
keep-insert_each q (d ∷ ds) defaults merged (h, hs) =
    keep-insert_each q ds defaults _ hs
    ∙ keep-Inserted q (insert_step-Inserted (preceding d.step defaults) d merged) h

All-keep :
    (p : StepConfig → Bool) (P : StepConfig → Type 0) (ds : List StepConfig)
    → All P (keep p ds)
    → ((d : StepConfig) → p d ≡ false → P d)
    → All P ds
All-keep p P [] h k = tt
All-keep p P (d ∷ ds) h k =
    choose (λ xs. All P xs → P d × All P ds) (p d) (d ∷ keep p ds) (keep p ds)
      (λ _ g. (g.0, All-keep p P ds g.1 k)) (λ e g. (k d e, All-keep p P ds g k)) h

All-kept :
    (q : StepConfig → Bool) (ds : List StepConfig)
    → All (λ d. q d ≡ false) (keep (λ d. not (q d)) ds)
All-kept q [] = tt
All-kept q (d ∷ ds) =
    choose (All (λ x. q x ≡ false)) (not (q d)) _ _ (λ e. (flip (q d) e, All-kept q ds))
      (λ _. All-kept q ds)
  where
    flip : (b : Bool) → not b ≡ true → b ≡ false
    flip b e = ground arith

All-map :
    {P Q : StepConfig → Type 0}
    → ((x : StepConfig) → P x → Q x)
    → (xs : List StepConfig) → All P xs
    → All Q xs
All-map f [] h = tt
All-map f (x ∷ xs) (h, hs) = (f x h, All-map f xs hs)

own_ids : (xs : List StepConfig) → All (λ x. has_step_id x.step xs ≡ true) xs
unfolding has_step_id has_id
own_ids [] = tt
own_ids (x ∷ xs) = (rw (eq_refl x.step) refl, All-map (λ y h. ground (arith, h)) xs (own_ids xs))

keep_whole :
    (q : StepConfig → Bool) (xs : List StepConfig) → All (λ x. q x ≡ true) xs → keep q xs ≡ xs
keep_whole q [] h = refl
keep_whole q (x ∷ xs) (h, hs) = rw h (ap (λ rest. x ∷ rest) (keep_whole q xs hs))

-- After the insertion, every default step's id is in the pipeline, and the steps with the ids that the
-- pipeline had are the steps it had, in their order.
pub insert_missing_complete :
    (defaults merged : List StepConfig)
    → All (λ d. has_step_id d.step (insert_missing defaults merged) ≡ true) defaults
      × (keep (λ x. has_step_id x.step merged) (insert_missing defaults merged) ≡ merged)
unfolding insert_missing has_step_id
insert_missing_complete defaults merged =
    let own : StepConfig → Bool = λ x. has_step_id x.step merged in
    let missing = keep (λ d. not (own d)) defaults in
    (
      All-keep (λ d. not (own d))
          (λ d. has_step_id d.step (insert_each missing defaults merged) ≡ true) defaults
          (insert_each-All missing defaults merged)
          (λ d e. any-insert_each (has_id d.step) missing defaults merged (present (own d) e)),
      keep-insert_each own missing defaults merged (All-kept own defaults)
          ∙ keep_whole own merged (own_ids merged),
    )
  where
    present : (b : Bool) → not b ≡ false → b ≡ true
    present b e = ground arith

insert_after_nothing : (d : StepConfig) (xs : List StepConfig) → insert_after [] d xs ≡ none
unfolding insert_after place has_step_id
insert_after_nothing d [] = refl
insert_after_nothing d (x ∷ xs) = rw (insert_after_nothing d xs) refl

none_missing :
    (q : StepConfig → Bool) (ds : List StepConfig)
    → All (λ d. q d ≡ true) ds
    → keep (λ d. not (q d)) ds ≡ []
none_missing q [] h = refl
none_missing q (d ∷ ds) (h, hs) = rw h (none_missing q ds hs)

-- When the first default step is the only one that the pipeline lacks, it is put in at the end, behind
-- all the steps that the defaults have after it.
pub insert_missing_first :
    (d : StepConfig) (ds merged : List StepConfig)
    → has_step_id d.step merged ≡ false
    → All (λ x. has_step_id x.step merged ≡ true) ds
    → insert_missing (d ∷ ds) merged ≡ merged ++ d ∷ []
unfolding insert_missing insert_each insert_step preceding has_id or_append
insert_missing_first d ds merged h k =
    rw
      (
        insert_missing,
        h,
        none_missing (λ x. has_step_id x.step merged) ds k,
        eq_refl d.step,
        insert_after_nothing d merged,
      )
      refl
