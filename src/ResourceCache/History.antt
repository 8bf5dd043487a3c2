-- ===== src/ResourceCache/History.antt =====
-- resource_cache/resource_cache.h: `Set` and sequences of calls against the list of entries, a new
-- cache, and a cache of capacity 0.
use cclab.Base.{
  ℕ, ◌==◌, ◌<◌, ◌≡◌, ◌≢◌, inl, inr, is_some, Bool-cases, refl, ◌∙◌, ap, Bool, true, false, Option,
  none, some, List, [], ◌∷◌, arith,
}
use cclab.Base.Int.{ℤ, pos}
use cclab.Base.Pointers.{Ptr}
use cclab.ResourceCache.Store.{
  Clock, Items, Cache, lru_head, is_linked, remove_from_lru, insert_to_lru,
}
use cclab.ResourceCache.Ops
use cclab.ResourceCache.Ops.{new_cache, evict}
use cclab.ResourceCache.Spec
use cclab.ResourceCache.Spec.{Entries}
use cclab.ResourceCache.Valid.{IsValid, entries}
use cclab.ResourceCache.Reads.{get_refines}
use cclab.ResourceCache.Set.{set_lem}

-- A call, with the time at which it is made.
pub data Call (K V T : Type 0) : Type 0 where
  get : K → T → Call K V T
  set : K → V → T → Call K V T

module _ {K V : Type 0} (dec : Discrete K) (clock : Clock) where
  open clock use {Time}

  -- `Set` of a valid cache returns true and leaves a valid cache, whose entries are those of the
  -- specification: the new one first, an older one of its key or else the last one of a full cache gone.
  pub set_refines :
      {cap : ℕ} (c : Cache K V Time) (ps : List Ptr) (k : K) (r : V) (now : Time)
      → IsValid cap c ps
      → (c' : Cache K V Time) × (ps' : List Ptr) × (Ops.set dec clock k r now c ≡ some (true, c'))
        × IsValid cap c' ps'
        × (entries c'.items ps' ≡ Spec.set dec cap k r now (entries c.items ps))
        × (c'.expire_seconds ≡ c.expire_seconds)
  set_refines c ps k r now v =
      let s = set_lem dec clock c ps k r now v in
      (s.cache, s.list, s.done, s.valid, s.stored, s.same_time)

  -- What the calls of `Get` give, one after another; `none` is a fault.
  abbrev after_set :
      (Cache K V Time → Option (List (Option V)))
      → Option (Bool × Cache K V Time)
      → Option (List (Option V))
  after_set rest none = none
  after_set rest (some (ok, c)) = rest c

  abbrev with_reply : Option V → Option (List (Option V)) → Option (List (Option V))
  with_reply v none = none
  with_reply v (some vs) = some (v ∷ vs)

  unfoldable pub run : List (Call K V Time) → Cache K V Time → Option (List (Option V))
  run [] c = some []
  run (get k now ∷ calls) c = with_reply (Ops.get dec clock k now c) (run calls c)
  run (set k r now ∷ calls) c = after_set (run calls) (Ops.set dec clock k r now c)

  unfoldable pub run_entries :
      (cap : ℕ) (expire : ℤ) → List (Call K V Time) → Entries K V Time → List (Option V)
  run_entries cap expire [] l = []
  run_entries cap expire (get k now ∷ calls) l =
      Spec.get dec clock expire k now l ∷ run_entries cap expire calls l
  run_entries cap expire (set k r now ∷ calls) l =
      run_entries cap expire calls (Spec.set dec cap k r now l)

  -- No sequence of calls on a valid cache has a fault, and each `Get` of it gives what the
  -- specification gives on the list of entries.
  pub calls_refines :
      {cap : ℕ} (calls : List (Call K V Time)) (c : Cache K V Time) (ps : List Ptr)
      → IsValid cap c ps
      → run calls c ≡ some (run_entries cap c.expire_seconds calls (entries c.items ps))
  unfolding run run_entries
  calls_refines [] c ps v = refl
  calls_refines {cap} (get k now ∷ calls) c ps v =
      rw (get_refines dec clock c ps k now v, calls_refines calls c ps v) refl
  calls_refines {cap} (set k r now ∷ calls) c ps v =
      let (c', ps', done, w, e, same) = set_refines c ps k r now v in
      ap (after_set (run calls)) done
      ∙ calls_refines calls c' ps' w
      ∙ ap (λ x. some (run_entries cap x calls (entries c'.items ps'))) same
      ∙ ap (λ l. some (run_entries cap c.expire_seconds calls l)) e

  -- A new cache of positive capacity is valid and empty, where `new` has not given its own address.
  pub new_cache-IsValid :
      (n : ℕ) (expire : ℤ) (h : Items K V Time)
      → 0 < n
      → lru_head < h.top
      → IsValid n (new_cache dec clock (pos n) expire h) []
  unfolding new_cache
  new_cache-IsValid n expire h positive member = record {
    ring = (ground arith, ground arith);
    distinct = ground arith;
    allocated = λ p m. cc;
    given = λ p m. cc;
    member = member;
    not_null = refl;
    mapped = λ k p e. cc;
    keyed = λ p m. cc;
    counted = refl;
    capacity = refl;
    within = omega arith;
    positive = positive;
  }

  -- In a new cache of capacity 0 every `Set` takes `lru_head_` itself for the rear item: the item passes the
  -- assertions, and where `new` has not given it, its `delete` fails; where it could be deleted, `Set`
  -- would go through.
  pub new_cache-zero :
      (expire : ℤ) (h : Items K V Time) (k : K) (r : V) (now : Time)
      → h.top ≢ 0
      → let c = new_cache dec clock (pos 0) expire h in
        (c.items.prev lru_head ≡ lru_head)
        × (is_linked c.items (c.items.prev lru_head) ≡ true)
        × (is_some (Ops.set dec clock k r now c) ≡ h.allocated lru_head)
  unfolding Ops.set evict new_cache remove_from_lru insert_to_lru
  new_cache-zero expire h k r now e =
      let given : (h.top == 0) ≡ false = ground arith in
      elim (Bool-cases (h.allocated lru_head)) [
        | inl y ↦ (refl, refl, rw (y, given) refl)
        | inr z ↦ (refl, refl, rw z refl)
      ]
