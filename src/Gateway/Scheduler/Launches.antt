-- ===== src/Gateway/Scheduler/Launches.antt =====
-- Proofs on self.running: what launching some names does to it.
use okxquant.Prelude.{
  ◌+◌, String, true, false, ◌≡◌, refl, inl, inr, ◌⊎◌, some, List, [], ◌∷◌, ◌++◌, arith, str_eq,
  eq_iff, Bool-cases, All, All-map, All-append, length, length-append,
}
use okxquant.Gateway.Scheduler.State.{Lane, busy, Task, Scheduler, has_key, look, store_key}
use okxquant.Gateway.Scheduler.Tick.{submit}

-- A name that was launched stands for a key that was free before and is taken afterwards: its own,
-- or the trader's for a recovery.
abbrev pub Started : List (String × Task) → List (String × Task) → String → Type 0
Started before after n =
    (k : String) × ((n ≡ k) ⊎ ((n ≡ "trader_recovery") × (k ≡ "trader")))
    × (has_key k before ≡ false)
    × (has_key k after ≡ true)

-- What launching some names does to self.running: each takes a free key, another one each time, and
-- what was running stays as it was.
pub record Launches (names : List String) (before after : List (String × Task)) : Type 0 where
  pub count : length after ≡ length before + length names
  pub kept : (k : String) (x : Task) → look k before ≡ some x → look k after ≡ some x
  pub keys : (k : String) → has_key k before ≡ true → has_key k after ≡ true
  pub started : All (Started before after) names

pub Launches-none : (m : List (String × Task)) → Launches [] m m
Launches-none m = record { count = omega arith; kept = λ k x h. h; keys = λ k h. h; started = tt }

pub Launches-append :
    (xs ys : List String) (a b c : List (String × Task))
    → Launches xs a b
    → Launches ys b c
    → Launches (xs ++ ys) a c
Launches-append xs ys a b c f g = record {
  count = let l = length-append xs ys in omega (arith, l, f.count, g.count);
  kept = λ k x h. g.kept k x (f.kept k x h);
  keys = λ k h. g.keys k (f.keys k h);
  started =
      All-append (Started a c) xs ys
        (All-map (Started a b) (Started a c)
          (λ n (k, named, free, taken). (k, named, free, g.keys k taken)) xs f.started)
        (All-map (Started b c) (Started a c)
          (λ n (k, named, free, taken). (k, named, before k free, taken)) ys g.started);
}
  where
    before : (k : String) → has_key k b ≡ false → has_key k a ≡ false
    before k free = elim (Bool-cases (has_key k a)) [
      | inl e ↦ absurd (cc (f.keys k e, free))
      | inr e ↦ e
    ]

module _ (name : String) (t : Task) where
  length-store_key :
      (m : List (String × Task))
      → has_key name m ≡ false
      → length (store_key name t m) ≡ length m + 1
  unfolding has_key store_key
  length-store_key [] free = refl
  length-store_key ((k, x) ∷ m) free = elim (Bool-cases (str_eq k name)) [
    | inl e ↦ absurd (cc (rw e at free))
    | inr e ↦ rw e (let h = length-store_key m (rw e at free) in omega (arith, h))
  ]

  look-store_key :
      (m : List (String × Task)) (k : String) (x : Task)
      → has_key name m ≡ false
      → look k m ≡ some x
      → look k (store_key name t m) ≡ some x
  unfolding has_key look store_key
  look-store_key [] k x free h = absurd (cc h)
  look-store_key ((j, y) ∷ m) k x free h = elim (Bool-cases (str_eq j name)) [
    | inl e ↦ absurd (cc (rw e at free))
    | inr e ↦ rw e (elim (Bool-cases (str_eq j k)) [
      | inl q ↦ rw q (rw q at h)
      | inr q ↦ rw q (look-store_key m k x (rw e at free) (rw q at h))
    ])
  ]

  has_key-store_key :
      (m : List (String × Task)) (k : String)
      → has_key k m ≡ true
      → has_key k (store_key name t m) ≡ true
  unfolding has_key store_key
  has_key-store_key [] k h = absurd (cc h)
  has_key-store_key ((j, y) ∷ m) k h = ground (arith, has_key-store_key m k)

  store_key-has_key : (m : List (String × Task)) → has_key name (store_key name t m) ≡ true
  unfolding has_key store_key
  store_key-has_key [] = let self = (eq_iff name name).1 refl in rw self refl
  store_key-has_key ((j, y) ∷ m) = ground (arith, store_key-has_key m)

pub submit-Launches :
    (n k : String) (lane : Lane) (s : Scheduler)
    → (n ≡ k) ⊎ ((n ≡ "trader_recovery") × (k ≡ "trader"))
    → has_key k s.running ≡ false
    → Launches (n ∷ []) s.running (submit k lane s).running
unfolding submit
submit-Launches n k lane s named free =
    let t : Task = record { lane = lane; future = busy } in
    record {
      count = length-store_key k t s.running free;
      kept = λ j x h. look-store_key k t s.running j x free h;
      keys = λ j h. has_key-store_key k t s.running j h;
      started = ((k, named, free, store_key-has_key k t s.running), tt);
    }
