-- ===== src/Scripts/Fills/Sums.antt =====
-- Proofs on the volumes of reconcile of scripts/fill_accounting.py: sums over the matched fills.
use okxquant.Prelude.{
  ℕ, String, Bool, true, false, ◌||◌, not, ◌≡◌, refl, sym, ◌∙◌, inl, inr, Option, none, some, List,
  [], ◌∷◌, arith, Bool-cases,
}
use okxquant.Prelude.Int.{ℤ, pos, ◌+ℤ◌, ◌-ℤ◌, leb_ℤ, int_laws}
use okxquant.Scripts.Fills.Records.{
  Decimals, Outcome, unknown, known, Fill, check_number, read_value, parsed, to_number, is_value,
}
use okxquant.Scripts.Fills.Reconcile.{Volumes, opening_side, count_volume, add_fill, add_fills}
use okxquant.Scripts.Fills.Inventory.{counted, until, until-bump}

-- The number of a value, where it has one.
abbrev pub or_zero : Option ℤ → ℤ
or_zero none = pos 0
or_zero (some z) = z

abbrev pub amount_of : Decimals → Option String → ℤ
amount_of d value = or_zero (read_value d value)

checked_value :
    (d : Decimals) (positive integer : Bool) (z y : ℤ)
    → check_number d positive integer z ≡ known y
    → z ≡ y
unfolding check_number
checked_value d positive integer z y h = ground arith

pub to_number-amount :
    (d : Decimals) (positive integer : Bool) (value : Option String) (z : ℤ)
    → to_number d positive integer value ≡ known z
    → amount_of d value ≡ z
unfolding to_number
to_number-amount d positive integer value z h = go (read_value d value) h
  where
    go : (o : Option ℤ) → parsed d positive integer o ≡ known z → or_zero o ≡ z
    go none k = absurd (unfold parsed in cc k)
    go (some y) k = checked_value d positive integer y z (unfold parsed in k)

abbrev pub is_opening : String → Fill → Bool
is_opening direction f = is_value (opening_side direction) f.side

unfoldable pub sum_of : (Fill → ℤ) → List (String × Fill) → ℤ
sum_of value [] = pos 0
sum_of value ((id, f) ∷ rest) = value f +ℤ sum_of value rest

-- What the fills of one side came to, and until a time.
abbrev pub sizes : Decimals → (Fill → Bool) → Fill → ℤ
sizes d p f = counted (p f) (amount_of d f.fill_sz)

abbrev pub fees : Decimals → (Fill → Bool) → Fill → ℤ
fees d p f = counted (p f) (amount_of d f.fee)

abbrev pub sizes_until : Decimals → (Fill → Bool) → ℤ → Fill → ℤ
sizes_until d p t f = counted (leb_ℤ (amount_of d f.ts) t) (sizes d p f)

abbrev pub change_until : Decimals → String → ℤ → Fill → ℤ
change_until d direction t f =
    sizes_until d (is_opening direction) t f
    -ℤ sizes_until d (λ g. not (is_opening direction g)) t f

-- The volumes after some fills.
pub record IsSummed (d : Decimals) (direction : String) (m : List (String × Fill)) (v w : Volumes)
    : Type 0 where
  pub open_size : w.open_size ≡ v.open_size +ℤ sum_of (sizes d (is_opening direction)) m
  pub close_size :
      w.close_size ≡ v.close_size +ℤ sum_of (sizes d (λ f. not (is_opening direction f))) m
  pub open_fee : w.open_fee ≡ v.open_fee +ℤ sum_of (fees d (is_opening direction)) m
  pub close_fee : w.close_fee ≡ v.close_fee +ℤ sum_of (fees d (λ f. not (is_opening direction f))) m
  pub inventory :
      (t : ℤ) → until t w.movements ≡ until t v.movements +ℤ sum_of (change_until d direction t) m

add_fill_volume :
    (d : Decimals) (direction : String) (count : ℕ) (f : Fill) (v w : Volumes)
    → add_fill d direction count f v ≡ known w
    → (w
        ≡ count_volume
            (is_opening direction f)
            (amount_of d f.fill_sz)
            (amount_of d f.fee)
            (amount_of d f.ts)
            v)
      × (is_value "USDT" f.fee_ccy ≡ true)
unfolding add_fill
add_fill_volume d direction count f v w h = elim (Bool-cases (is_value "USDT" f.fee_ccy)) [
  | inr e ↦ absurd (cc (rw e at h))
  | inl e ↦ elim (Bool-cases (is_value "buy" f.side || is_value "sell" f.side)) [
    | inr k ↦ absurd (cc (rw (e, k) at h))
    | inl k ↦ (
      go (to_number d true false f.fill_sz) (to_number d false false f.fee)
          (to_number d true true f.ts) refl refl refl (rw (e, k) at h),
      e,
    )
  ]
]
  where
    go :
        (a b c : Outcome ℤ)
        → to_number d true false f.fill_sz ≡ a
        → to_number d false false f.fee ≡ b
        → to_number d true true f.ts ≡ c
        → elim a as (λ _. Outcome Volumes) [
          | unknown r n ↦ unknown r n
          | known size ↦ elim b as (λ _. Outcome Volumes) [
            | unknown r n ↦ unknown r n
            | known fee ↦ elim c as (λ _. Outcome Volumes) [
              | unknown r n ↦ unknown r n
              | known t ↦ known (count_volume (is_opening direction f) size fee t v)
            ]
          ]
        ]
          ≡ known w
        → w
          ≡ count_volume
              (is_opening direction f)
              (amount_of d f.fill_sz)
              (amount_of d f.fee)
              (amount_of d f.ts)
              v
    go (known x) (known y) (known z) p q r k =
        let same : count_volume (is_opening direction f) x y z v ≡ w = cc k in
        let sized = to_number-amount d true false f.fill_sz x p in
        let paid = to_number-amount d false false f.fee y q in
        let timed = to_number-amount d true true f.ts z r in sym same ∙ cc (sized, paid, timed)
    go (unknown x n) b c p q r k = absurd (cc k)
    go (known x) (unknown y n) c p q r k = absurd (cc k)
    go (known x) (known y) (unknown z n) p q r k = absurd (cc k)

module _ (d : Decimals) (direction : String) where
  volume_step :
      (b : Bool) (size fee s : ℤ) (v : Volumes)
      → let w = count_volume b size fee s v in
        (w.open_size ≡ v.open_size +ℤ counted b size)
        × (w.close_size ≡ v.close_size +ℤ counted (not b) size)
        × (w.open_fee ≡ v.open_fee +ℤ counted b fee)
        × (w.close_fee ≡ v.close_fee +ℤ counted (not b) fee)
        × ((t : ℤ)
            → until t w.movements
              ≡ until t v.movements
                +ℤ (counted (leb_ℤ s t) (counted b size)
                    -ℤ counted (leb_ℤ s t) (counted (not b) size)))
  unfolding count_volume
  volume_step true size fee s v = (
    refl,
    omega int_laws,
    refl,
    omega int_laws,
    λ t. until-bump t s size v.movements ∙ elim (Bool-cases (leb_ℤ s t)) [
      | inl e ↦ rw e (omega int_laws)
      | inr e ↦ rw e (omega int_laws)
    ],
  )
  volume_step false size fee s v = (
    omega int_laws,
    refl,
    omega int_laws,
    refl,
    λ t. until-bump t s (pos 0 -ℤ size) v.movements ∙ elim (Bool-cases (leb_ℤ s t)) [
      | inl e ↦ rw e (omega int_laws)
      | inr e ↦ rw e (omega int_laws)
    ],
  )

  pub add_fills-IsSummed :
      (count : ℕ) (m : List (String × Fill)) (v w : Volumes)
      → add_fills d direction count m v ≡ known w
      → IsSummed d direction m v w
  unfolding add_fills sum_of
  add_fills-IsSummed count [] v w h =
      let same : v ≡ w = cc h in
      rw same (record {
        open_size = omega int_laws;
        close_size = omega int_laws;
        open_fee = omega int_laws;
        close_fee = omega int_laws;
        inventory = λ t. omega int_laws;
      })
  add_fills-IsSummed count ((id, f) ∷ m) v w h =
      go (λ mid k. add_fills-IsSummed count m mid w k) (add_fill d direction count f v) refl h
    where
      step :
          (mid : Volumes)
          → add_fill d direction count f v ≡ known mid
          → IsSummed d direction m mid w
          → IsSummed d direction ((id, f) ∷ m) v w
      step mid e r =
          let (volume, _) = add_fill_volume d direction count f v mid e in
          let (os, cs, of, cf, inv) =
            volume_step (is_opening direction f) (amount_of d f.fill_sz) (amount_of d f.fee)
              (amount_of d f.ts) v in
          record {
            open_size = r.open_size ∙ rw (volume, os) (omega int_laws);
            close_size = r.close_size ∙ rw (volume, cs) (omega int_laws);
            open_fee = r.open_fee ∙ rw (volume, of) (omega int_laws);
            close_fee = r.close_fee ∙ rw (volume, cf) (omega int_laws);
            inventory = λ t. r.inventory t ∙ rw (volume, inv t) (omega int_laws);
          }

      go :
          ((mid : Volumes)
            → add_fills d direction count m mid ≡ known w
            → IsSummed d direction m mid w)
          → (o : Outcome Volumes) → add_fill d direction count f v ≡ o
          → elim o as (λ _. Outcome Volumes) [
            | unknown r n ↦ unknown r n
            | known v' ↦ add_fills d direction count m v'
          ]
            ≡ known w
          → IsSummed d direction ((id, f) ∷ m) v w
      go next (unknown r n) e k = absurd (cc k)
      go next (known mid) e k = step mid e (next mid k)
