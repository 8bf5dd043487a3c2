-- ===== src/ResourceCache/Spec.antt =====
-- What a cache promises: the entries with the keys set last, newest first.
use mathlib.Core.Logic.{ite}
use cclab.Base.{ℕ, Option, none, some, List, [], ◌∷◌, ◌==◌, if◌then◌else◌, length}
use cclab.Base.Int.{ℤ}
use cclab.ResourceCache.Store.{Clock}
use cclab.ResourceCache.Ops.{lt_int}

-- Key, resource, and the time at which it was set.
abbrev pub Entries : Type 0 → Type 0 → Type 0 → Type 0
Entries K V T = List (K × V × T)

-- The list without its last entry.
abbrev pub drop_last {ℓ} : {A : Type ℓ} → List A → List A
drop_last [] = []
drop_last (x ∷ []) = []
drop_last (x ∷ y ∷ xs) = x ∷ drop_last (y ∷ xs)

module _ {K V T : Type 0} (dec : Discrete K) where
  abbrev pub find : K → Entries K V T → Option (V × T)
  find k [] = none
  find k ((j, v, t) ∷ l) = ite (dec j k) (some (v, t)) (find k l)

  abbrev pub remove : K → Entries K V T → Entries K V T
  remove k [] = []
  remove k ((j, v, t) ∷ l) = ite (dec j k) l ((j, v, t) ∷ remove k l)

  abbrev pub room : ℕ → Option (V × T) → K → Entries K V T → Entries K V T
  room cap none k l = if length l == cap then drop_last l else l
  room cap (some e) k l = remove k l

  -- The entry comes first; an older one of its key goes, or else the last one of a full cache.
  unfoldable pub set : (cap : ℕ) → K → V → T → Entries K V T → Entries K V T
  set cap k v now l = (k, v, now) ∷ room cap (find k l) k l

module _ {K V : Type 0} (dec : Discrete K) (clock : Clock) where
  open clock use {Time, seconds}

  abbrev pub fresh : (expire : ℤ) → (now : Time) → Option (V × Time) → Option V
  fresh expire now none = none
  fresh expire now (some (v, t)) = if lt_int (seconds t now) expire then some v else none

  -- An entry is given while it is younger than `expire` seconds.
  unfoldable pub get : (expire : ℤ) → K → Time → Entries K V Time → Option V
  get expire k now l = fresh expire now (find dec k l)
