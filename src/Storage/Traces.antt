-- ===== src/Storage/Traces.antt =====
-- The states of the disk that an operation goes through, the first one first, with its result.
use shado_cloud.Common.{All, ◌≡◌, refl, Bool, true, false, Option, none, some, List, [], ◌∷◌}
use shado_cloud.Storage.FileSystem.{Disk}

abbrev pub Trace : Type 0 → Type 0
Trace R = R × List Disk

-- The disk at the end.
unfoldable pub last_of : Disk → List Disk → Disk
last_of d [] = d
last_of d (e ∷ states) = last_of e states

last_of-All :
    (P : Disk → Type 0) (d : Disk) (states : List Disk) → P d → All P states → P (last_of d states)
unfolding last_of
last_of-All P d [] h k = h
last_of-All P d (e ∷ states) h (here, k) = last_of-All P e states here k

module _ {R : Type 0} where
  unfoldable pub now_at : Disk → Trace R → Trace R
  now_at d (result, states) = (result, d ∷ states)

  -- One call, which can fail for a reason of its own or one from outside.
  unfoldable pub call : Bool → Option Disk → (Disk → Trace R) → Trace R → Trace R
  unfolding now_at
  call true (some d) next caught = now_at d (next d)
  call _ _ next caught = caught

  unfoldable pub final : Disk → Trace R → Disk
  unfolding last_of
  final d (result, states) = last_of d states

  -- A property of all states.
  unfoldable pub Throughout : (Disk → Type 0) → Trace R → Type 0
  Throughout P (result, states) = All P states

  pub call-Throughout :
      (P : Disk → Type 0) (answer : Bool) (result : Option Disk) (next : Disk → Trace R)
      (caught : Trace R)
      → ((d : Disk) → result ≡ some d → P d × Throughout P (next d))
      → Throughout P caught
      → Throughout P (call answer result next caught)
  unfolding Throughout call now_at
  call-Throughout P true (some d) next caught h k = h d refl
  call-Throughout P true none next caught h k = k
  call-Throughout P false result next caught h k = k

  pub Throughout-map :
      {P Q : Disk → Type 0}
      → ((d : Disk) → P d → Q d)
      → (t : Trace R) → Throughout P t
      → Throughout Q t
  unfolding Throughout
  Throughout-map f (result, []) h = tt
  Throughout-map f (result, d ∷ states) (h, k) = (f d h, Throughout-map f (result, states) k)

  pub final-Throughout :
      (P : Disk → Type 0) (d : Disk) (t : Trace R) → P d → Throughout P t → P (final d t)
  unfolding final Throughout
  final-Throughout P d (result, states) h k = last_of-All P d states h k
