-- ===== src/TempUrl/Overlaps.antt =====
-- Requests that overlap: `asStream` reads the row, waits for other calls, and saves the row it has
-- read, so two requests may both read before either saves.
use shado_cloud.TempUrl.Requests.{count_request_stale, found_has_url}
use shado_cloud.Common.{
  ok, Text, text_eq, ℕ, zero, suc, ◌+◌, ◌≡◌, refl, subst, true, Option, List, [], ◌∷◌, arith,
}
use shado_cloud.TempUrl.{TempUrl, Cloud, find_or_throw, Grant, open_stream, count_request}

-- The requests between their checks and their save, and the number that were served.
pub record Traffic : Type 0 where
  pub cloud : Cloud
  pub waiting : List Grant
  pub served : ℕ

pub data Step : Traffic → Traffic → Type 0 where
  begins :
      (url sub_path : Text) (cookies : Option Text) {c : Cloud} {g : Grant} {waiting : List Grant}
      {served : ℕ}
      → open_stream url sub_path cookies c ≡ ok g
      → Step
          (record { cloud = c; waiting = waiting; served = served })
          (record { cloud = c; waiting = g ∷ waiting; served = served })
  finishes :
      {c : Cloud} {g : Grant} {waiting : List Grant} {served : ℕ}
      → Step
          (record { cloud = c; waiting = g ∷ waiting; served = served })
          (record { cloud = count_request g.0 c; waiting = waiting; served = suc served })

abbrev pub traffic : Cloud → List Grant → ℕ → Traffic
traffic c waiting served = record { cloud = c; waiting = waiting; served = served }

pub data Steps : Traffic → Traffic → Type 0 where
  stop : {x : Traffic} → Steps x x
  step : {x y z : Traffic} → Step x y → Steps y z → Steps x z

chain : {x y z : Traffic} → Steps x y → Steps y z → Steps x z
chain stop q = q
chain (step s p) q = step s (chain p q)

copies : ℕ → Grant → List Grant
copies zero g = []
copies (suc n) g = g ∷ copies n g

-- `n` more requests begin, each with the same checks on the same state.
all_begin :
    (n m : ℕ) (url sub_path : Text) (cookies : Option Text) (c : Cloud) (g : Grant)
    → open_stream url sub_path cookies c ≡ ok g
    → Steps (traffic c (copies m g) 0) (traffic c (copies (n + m) g) 0)
unfolding copies
all_begin zero m url sub_path cookies c g h =
    let at : ℕ → Traffic = λ k. traffic c (copies k g) 0 in
    subst (λ k. Steps (at m) (at k)) (omega arith) stop
all_begin (suc n) m url sub_path cookies c g h =
    let target : ℕ → Traffic = λ k. traffic c (copies k g) 0 in
    step (begins url sub_path cookies h) (
      subst (λ k. Steps (target (suc m)) (target k)) (omega arith)
        (all_begin n (suc m) url sub_path cookies c g h))

-- The states in which the share has this row.
abbrev Shows : Text → TempUrl → Cloud → Type 0
Shows url t c = find_or_throw url c ≡ ok t

all_finish :
    (n k : ℕ) (url : Text) (t there : TempUrl) (path : List Text) (content : Text) (c : Cloud)
    → Shows url there c
    → t.id ≡ there.id
    → text_eq t.url url ≡ true
    → (c' : Cloud) × Steps
        (traffic c (copies (suc n) (t, path, content)) k)
        (traffic c' [] (suc n + k))
      × Shows url (record t { requests = t.requests + 1 }) c'
unfolding copies
all_finish zero k url t there path content c h i u = (
  count_request t c,
  subst (λ j. Steps (traffic c (copies 1 (t, path, content)) k) (traffic (count_request t c) [] j))
      (omega arith) (step finishes stop),
  count_request_stale url there t c h i u,
)
all_finish (suc n) k url t there path content c h i u =
    let counted = record t { requests = t.requests + 1 } in
    let c1 = count_request t c in
    let (c', steps, shows) =
      all_finish n (suc k) url t counted path content c1 (count_request_stale url there t c h i u)
        refl u in
    let total : ℕ → Traffic = λ j. traffic c' [] j in
    let start : Traffic = traffic c1 (copies (suc n) (t, path, content)) (suc k) in
    (c', step finishes (subst (λ j. Steps start (total j)) (omega arith) steps), shows)

-- If one request for a file of a share would be served, then any number of such requests that all
-- begin before the first of them is counted are served, and the share's count goes up by one only.
pub overlapping_requests :
    (n : ℕ) (url sub_path : Text) (cookies : Option Text) (c : Cloud) (t : TempUrl)
    (path : List Text) (content : Text)
    → find_or_throw url c ≡ ok t
    → open_stream url sub_path cookies c ≡ ok (t, path, content)
    → (c' : Cloud) × Steps (traffic c [] 0) (traffic c' [] (suc n))
      × (find_or_throw url c' ≡ ok (record t { requests = t.requests + 1 }))
unfolding copies
overlapping_requests n url sub_path cookies c t path content found h =
    let g : Grant = (t, path, content) in
    let begun = all_begin (suc n) 0 url sub_path cookies c g h in
    let (c', finished, shows) =
      all_finish n 0 url t t path content c found refl (found_has_url url t c found) in
    let start : Traffic = traffic c [] 0 in
    let middle : ℕ → Traffic = λ k. traffic c (copies k g) 0 in
    let end : ℕ → Traffic = λ k. traffic c' [] k in
    let e : suc n + 0 ≡ suc n = omega arith in
    (
      c',
      chain (subst (λ k. Steps start (middle k)) e begun)
          (subst (λ k. Steps (middle (suc n)) (end k)) e finished),
      shows,
    )
