-- ===== src/Auth/Json/Order.antt =====
-- `Object.keys(value).sort()`: the keys in the order of their code units, with what stands under them.
use shado_cloud.Common.{
  ltb, ◌==◌, if◌then◌else◌, Bool-cases, Text, text_eq, ◌≡◌, refl, sym, ap, inl, inr, Bool, true,
  false, ◌&&◌, ◌||◌, List, [], ◌∷◌, arith,
}

-- `a < b` for texts.
text_ltb : Text → Text → Bool
text_ltb s [] = false
text_ltb [] (y ∷ t) = true
text_ltb (x ∷ s) (y ∷ t) = ltb x y || x == y && text_ltb s t

insert_key : Text × Text → List (Text × Text) → List (Text × Text)
unfolding text_ltb
insert_key entry [] = entry ∷ []
insert_key (key, value) ((other, v) ∷ more) =
    if text_ltb other key
    then (other, v) ∷ insert_key (key, value) more
    else (key, value) ∷ (other, v) ∷ more

unfoldable pub sort_keys : List (Text × Text) → List (Text × Text)
unfolding insert_key
sort_keys [] = []
sort_keys (entry ∷ more) = insert_key entry (sort_keys more)

text_ltb_trans : (r s t : Text) → text_ltb r s ≡ true → text_ltb s t ≡ true → text_ltb r t ≡ true
unfolding text_ltb
text_ltb_trans [] [] t h k = cc
text_ltb_trans [] (y ∷ s) [] h k = cc
text_ltb_trans [] (y ∷ s) (z ∷ t) h k = refl
text_ltb_trans (x ∷ r) [] t h k = cc
text_ltb_trans (x ∷ r) (y ∷ s) [] h k = cc
text_ltb_trans (x ∷ r) (y ∷ s) (z ∷ t) h k = ground (arith, text_ltb_trans r s t)

text_ltb_asym : (s t : Text) → text_ltb s t ≡ true → text_ltb t s ≡ false
unfolding text_ltb
text_ltb_asym [] [] h = refl
text_ltb_asym [] (y ∷ t) h = refl
text_ltb_asym (x ∷ s) [] h = cc
text_ltb_asym (x ∷ s) (y ∷ t) h = ground (arith, text_ltb_asym s t)

text_ltb_total : (s t : Text) → text_ltb s t ≡ false → text_ltb t s ≡ false → text_eq s t ≡ true
unfolding text_ltb
text_ltb_total [] [] h k = refl
text_ltb_total [] (y ∷ t) h k = cc
text_ltb_total (x ∷ s) [] h k = cc
text_ltb_total (x ∷ s) (y ∷ t) h k = ground (arith, text_ltb_total s t)

insert_key-before :
    (k l : Text) (v w : Text) (entries : List (Text × Text))
    → text_ltb k l ≡ true
    → insert_key (k, v) (insert_key (l, w) entries) ≡ insert_key (l, w) (insert_key (k, v) entries)
unfolding insert_key
insert_key-before k l v w [] h = ground (arith, text_ltb_asym k l)
insert_key-before k l v w ((o, u) ∷ entries) h =
    ground (arith, text_ltb_asym k l, text_ltb_trans o k l, insert_key-before k l v w entries)

-- Keys that differ come to the same order, whichever is put first.
insert_key_comm :
    (k l : Text) (v w : Text) (entries : List (Text × Text))
    → text_eq k l ≡ false
    → insert_key (k, v) (insert_key (l, w) entries) ≡ insert_key (l, w) (insert_key (k, v) entries)
insert_key_comm k l v w entries h = elim (Bool-cases (text_ltb k l)) [
  | inl e ↦ insert_key-before k l v w entries e
  | inr e ↦ elim (Bool-cases (text_ltb l k)) [
    | inl f ↦ sym (insert_key-before l k w v entries f)
    | inr f ↦ cc (text_ltb_total k l e f)
  ]
]

pub sort_keys-swap :
    (k l : Text) (v w : Text) (more : List (Text × Text))
    → text_eq k l ≡ false
    → sort_keys ((k, v) ∷ (l, w) ∷ more) ≡ sort_keys ((l, w) ∷ (k, v) ∷ more)
unfolding sort_keys
sort_keys-swap k l v w more h = insert_key_comm k l v w (sort_keys more) h

pub sort_keys-cons :
    (entry : Text × Text) (xs ys : List (Text × Text))
    → sort_keys xs ≡ sort_keys ys
    → sort_keys (entry ∷ xs) ≡ sort_keys (entry ∷ ys)
unfolding sort_keys
sort_keys-cons entry xs ys e = ap (insert_key entry) e
