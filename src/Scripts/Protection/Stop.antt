-- ===== src/Scripts/Protection/Stop.antt =====
-- rounded_stop of scripts/protection_policy.py, on multiples of a common unit, and proofs on it.
use okxquant.Prelude.{
  ℕ, ◌+◌, ◌-◌, ◌*◌, ◌/◌, ◌%◌, ◌≤◌, ◌<◌, String, Bool, true, false, ◌≡◌, refl, inl, inr, ◌&&◌,
  Option, none, some, ltb, str_eq, if◌then◌else◌, arith, Bool-cases,
}
use native.Mathlib.Nat.{div-add-mod', mod-lt, mul-mod_left}
use okxquant.Scripts.Protection.Coverage.{Reader, positive, is_side}

-- to_integral_value of the quotient, down for a long position and up for a short one.
unfoldable pub round_to_tick : Bool → ℕ → ℕ → ℕ
round_to_tick true proposed tick = (proposed / tick) * tick
round_to_tick false proposed tick = ((proposed + (tick - 1)) / tick) * tick

unfoldable pub tightens : Bool → ℕ → ℕ → ℕ → Bool
tightens true old stop current = ltb old stop && ltb stop current
tightens false old stop current = ltb current stop && ltb stop old

unfoldable pub stop_at : Bool → Option ℕ → Option ℕ → Option ℕ → Option ℕ → Option ℕ
unfolding round_to_tick tightens
stop_at long (some proposed) (some old) (some current) (some tick) =
    let stop = round_to_tick long proposed tick in
    if tightens long old stop current && ltb 0 stop then some stop else none
stop_at long _ _ _ _ = none

unfoldable pub rounded_stop :
    Reader → String → Option String → Option String → Option String → Option String → Option ℕ
unfolding stop_at positive is_side
rounded_stop rd side proposed old_stop current tick =
    if is_side side
    then stop_at (str_eq side "long") (positive rd proposed) (positive rd old_stop)
        (positive rd current) (positive rd tick)
    else none

-- The multiple of the tick next to a proposal, below it or above it.
unfoldable pub IsRounded : Bool → ℕ → ℕ → ℕ → Type 0
IsRounded true proposed tick stop = (stop ≤ proposed) × (proposed < stop + tick)
IsRounded false proposed tick stop = (proposed ≤ stop) × (stop < proposed + tick)

-- Between the old stop and the price, on the position's side.
unfoldable pub IsTighter : Bool → ℕ → ℕ → ℕ → Type 0
IsTighter true old stop current = (old < stop) × (stop < current)
IsTighter false old stop current = (current < stop) × (stop < old)

round_to_tick-IsRounded :
    (long : Bool) (proposed tick : ℕ)
    → 0 < tick
    → IsRounded long proposed tick (round_to_tick long proposed tick)
unfolding round_to_tick IsRounded
round_to_tick-IsRounded true proposed tick h =
    let whole = div-add-mod' proposed tick in
    let less = mod-lt proposed h in (omega (arith, whole), omega (arith, whole, less))
round_to_tick-IsRounded false proposed tick h =
    let whole = div-add-mod' (proposed + (tick - 1)) tick in
    let less = mod-lt (proposed + (tick - 1)) h in
    (omega (arith, whole, less), omega (arith, whole, less))

round_to_tick_whole :
    (long : Bool) (proposed tick : ℕ) → round_to_tick long proposed tick % tick ≡ 0
unfolding round_to_tick
round_to_tick_whole true proposed tick = mul-mod_left (proposed / tick) tick
round_to_tick_whole false proposed tick = mul-mod_left ((proposed + (tick - 1)) / tick) tick

tightens-IsTighter :
    (long : Bool) (old stop current : ℕ)
    → tightens long old stop current ≡ true
    → IsTighter long old stop current
unfolding tightens IsTighter
tightens-IsTighter true old stop current h = (ground arith, ground arith)
tightens-IsTighter false old stop current h = (ground arith, ground arith)

-- A stop that is rounded and tighter.
abbrev pub IsMoved : Bool → ℕ → ℕ → ℕ → ℕ → ℕ → Type 0
IsMoved long proposed old current tick stop =
    IsRounded long proposed tick stop
    × (stop % tick ≡ 0)
    × IsTighter long old stop current
    × (0 < stop)

stop_at-IsMoved :
    (long : Bool) (p o c t : Option ℕ) (stop : ℕ)
    → ((n : ℕ) → t ≡ some n → 0 < n)
    → stop_at long p o c t ≡ some stop
    → (proposed : ℕ) × (old : ℕ) × (current : ℕ) × (tick : ℕ) × (p ≡ some proposed)
      × (o ≡ some old)
      × (c ≡ some current)
      × (t ≡ some tick)
      × IsMoved long proposed old current tick stop
unfolding stop_at
stop_at-IsMoved long (some p) (some o) (some c) (some t) stop above h =
    elim (Bool-cases
      (tightens long o (round_to_tick long p t) c && ltb 0 (round_to_tick long p t))) [
        | inr e ↦ absurd (cc (rw e at h))
        | inl e ↦
            let same : round_to_tick long p t ≡ stop = cc (rw e at h) in
            let tight : tightens long o (round_to_tick long p t) c ≡ true = ground arith in
            let large : 0 < round_to_tick long p t = ground arith in
            (
              p,
              o,
              c,
              t,
              refl,
              refl,
              refl,
              refl,
              rw (← same) (
                round_to_tick-IsRounded long p t (above t refl),
                round_to_tick_whole long p t,
                tightens-IsTighter long o (round_to_tick long p t) c tight,
                large,
              ),
            )
      ]
stop_at-IsMoved long none o c t stop above h = absurd (cc h)
stop_at-IsMoved long (some p) none c t stop above h = absurd (cc h)
stop_at-IsMoved long (some p) (some o) none t stop above h = absurd (cc h)
stop_at-IsMoved long (some p) (some o) (some c) none stop above h = absurd (cc h)

-- A stop that rounded_stop gives is the multiple of the tick next to the proposal, away from the
-- market (below it for a long position, above it for a short one), and it lies strictly between the
-- old stop and the price: a stop is never moved back and never across the market. Numbers that are
-- read are above zero.
pub rounded_stop-IsTighter :
    (rd : Reader) (side : String) (proposed_text old_text current_text tick_text : Option String)
    (stop : ℕ)
    → ((n : ℕ) → positive rd tick_text ≡ some n → 0 < n)
    → rounded_stop rd side proposed_text old_text current_text tick_text ≡ some stop
    → (proposed : ℕ) × (old : ℕ) × (current : ℕ) × (tick : ℕ) × (positive rd proposed_text
        ≡ some proposed)
      × (positive rd old_text ≡ some old)
      × (positive rd current_text ≡ some current)
      × (positive rd tick_text ≡ some tick)
      × IsMoved (str_eq side "long") proposed old current tick stop
unfolding rounded_stop
rounded_stop-IsTighter rd side proposed_text old_text current_text tick_text stop above h =
    elim (Bool-cases (is_side side)) [
      | inr e ↦ absurd (cc (rw e at h))
      | inl e ↦
          stop_at-IsMoved (str_eq side "long") (positive rd proposed_text) (positive rd old_text)
            (positive rd current_text) (positive rd tick_text) stop above (rw e at h)
    ]
