-- ===== src/Scripts/Fills/Verified.antt =====
-- Proofs on reconcile of scripts/fill_accounting.py: what a verified allocation rests on.
use okxquant.Prelude.{
  String, Text, Bool, true, false, ◌&&◌, ◌||◌, ◌≡◌, refl, inl, inr, List, [], ◌∷◌, Bool-cases, All,
  str_eq, ◌⊎◌, Among, All-among, All-map, text_eq, text_eq-eq,
}
use okxquant.Prelude.Table.{Distinct}
use okxquant.Prelude.Int.{ℤ}
use okxquant.Scripts.Fills.Records.{
  Decimals, Outcome, unknown, known, Fill, Receipt, ActivePosition, available, to_number, interval,
  blank_or, is_swap,
}
use okxquant.Scripts.Fills.Match.{siblings, check_positions, match_fills, of_instrument}
use okxquant.Scripts.Fills.Reconcile.{Allocation, account, allocate, reconcile}
use okxquant.Scripts.Fills.Matched.{same_key, IsMatched, match_fills-AllMatched}
use okxquant.Scripts.Fills.Account.{IsAccount, account-IsAccount}

-- The archive has this fill under this instrument.
abbrev pub InArchive : Text → List (Text × List Fill) → Fill → Type 0
InArchive inst [] f = ⊥
InArchive inst ((key, fills) ∷ rest) f = ((key ≡ inst) × Among f fills) ⊎ InArchive inst rest f

of_instrument-InArchive :
    (inst : Text) (archive : List (Text × List Fill))
    → All (InArchive inst archive) (of_instrument inst archive)
unfolding of_instrument
of_instrument-InArchive inst [] = tt
of_instrument-InArchive inst ((key, fills) ∷ rest) = elim (Bool-cases (text_eq key inst)) [
  | inl e ↦ rw e (
      All-among (InArchive inst ((key, fills) ∷ rest)) fills
        (λ f k. inl (text_eq-eq key inst e, k)))
  | inr e ↦ rw e (
      All-map (InArchive inst rest) (InArchive inst ((key, fills) ∷ rest)) (λ f k. inr k)
        (of_instrument inst rest) (of_instrument-InArchive inst rest))
]

-- An allocation is verified only on this evidence: fills that the archive has under the position's
-- instrument, with distinct bill ids, each on its side, in its life and in no overlapping one; the opening and the closing
-- fills come to the closed size; until any time no more was closed than opened; the two fees are the
-- sums of the fills' fees, and together the receipt's fee within the tolerance.
pub reconcile-IsAccount :
    (d : Decimals) (history : Receipt) (archive : List (Text × List Fill)) (peers : List Receipt)
    (positions : List ActivePosition) (a : Allocation)
    → reconcile d history (available archive) peers positions ≡ known a
    → (life : ℤ × ℤ) × (target : ℤ) × (receipt_fee : ℤ) × (others : List (ℤ × ℤ)) × (m : List
        (String × Fill))
      × (interval d history ≡ known life)
      × (to_number d true false history.close_total_pos ≡ known target)
      × (to_number d false false history.fee ≡ known receipt_fee)
      × (siblings d history life peers ≡ known others)
      × All (IsMatched (InArchive history.inst_id archive) d history.direction others life) m
      × Distinct same_key m
      × IsAccount d history.direction target receipt_fee m a
unfolding reconcile allocate
reconcile-IsAccount d history archive peers positions a h =
    elim (Bool-cases (
      is_swap history.inst_id
      && (str_eq history.direction "long" || str_eq history.direction "short"))) [
        | inr e ↦ absurd (cc (rw e at h))
        | inl e ↦
            from_life (interval d history) (to_number d true false history.close_total_pos)
              (to_number d false false history.fee) refl refl refl (rw e at h)
      ]
  where
    Evidenced : Type 0
    Evidenced =
        (life : ℤ × ℤ) × (target : ℤ) × (receipt_fee : ℤ) × (others : List (ℤ × ℤ)) × (m : List
          (String × Fill))
        × (interval d history ≡ known life)
        × (to_number d true false history.close_total_pos ≡ known target)
        × (to_number d false false history.fee ≡ known receipt_fee)
        × (siblings d history life peers ≡ known others)
        × All (IsMatched (InArchive history.inst_id archive) d history.direction others life) m
        × Distinct same_key m
        × IsAccount d history.direction target receipt_fee m a

    from_fills :
        (life : ℤ × ℤ) (target receipt_fee : ℤ) (others : List (ℤ × ℤ))
        (o : Outcome (List (String × Fill)))
        → interval d history ≡ known life
        → to_number d true false history.close_total_pos ≡ known target
        → to_number d false false history.fee ≡ known receipt_fee
        → siblings d history life peers ≡ known others
        → match_fills d history.direction others life (of_instrument history.inst_id archive) [] ≡ o
        → elim o as (λ _. Outcome Allocation) [
          | unknown r n ↦ unknown r n
          | known matched ↦ account d history.direction target receipt_fee matched
        ]
          ≡ known a
        → Evidenced
    from_fills life target fee others (unknown r n) p q s t e k = absurd (cc k)
    from_fills life target fee others (known m) p q s t e k =
        let (matched, apart) =
          match_fills-AllMatched (InArchive history.inst_id archive) d history.direction others life
            (of_instrument history.inst_id archive) [] m
            (of_instrument-InArchive history.inst_id archive) e (tt, tt) in
        (
          life,
          target,
          fee,
          others,
          m,
          p,
          q,
          s,
          t,
          matched,
          apart,
          account-IsAccount d history.direction target fee m a k,
        )

    from_peers :
        (life : ℤ × ℤ) (target receipt_fee : ℤ) (o : Outcome (List (ℤ × ℤ))) (c : Outcome Bool)
        → interval d history ≡ known life
        → to_number d true false history.close_total_pos ≡ known target
        → to_number d false false history.fee ≡ known receipt_fee
        → siblings d history life peers ≡ o
        → elim o as (λ _. Outcome Allocation) [
          | unknown r n ↦ unknown r n
          | known others ↦ elim c as (λ _. Outcome Allocation) [
            | unknown r n ↦ unknown r n
            | known b ↦
                elim (match_fills d history.direction others life
                    (of_instrument history.inst_id archive)
                    [])
                  as (λ _. Outcome Allocation) [
                    | unknown r n ↦ unknown r n
                    | known matched ↦ account d history.direction target receipt_fee matched
                  ]
          ]
        ]
          ≡ known a
        → Evidenced
    from_peers life target fee (unknown r n) c p q s t k = absurd (cc k)
    from_peers life target fee (known others) (unknown r n) p q s t k = absurd (cc k)
    from_peers life target fee (known others) (known b) p q s t k =
        from_fills life target fee others
          (match_fills d history.direction others life (of_instrument history.inst_id archive) []) p
          q s t refl k

    from_life :
        (i : Outcome (ℤ × ℤ)) (t : Outcome ℤ) (f : Outcome ℤ)
        → interval d history ≡ i
        → to_number d true false history.close_total_pos ≡ t
        → to_number d false false history.fee ≡ f
        → elim i as (λ _. Outcome Allocation) [
          | unknown r n ↦ unknown r n
          | known life ↦ elim t as (λ _. Outcome Allocation) [
            | unknown r n ↦ unknown r n
            | known target ↦ elim f as (λ _. Outcome Allocation) [
              | unknown r n ↦ unknown r n
              | known fee ↦ allocate d history archive peers positions life target fee
            ]
          ]
        ]
          ≡ known a
        → Evidenced
    from_life (unknown r n) t f p q s k = absurd (cc k)
    from_life (known life) (unknown r n) f p q s k = absurd (cc k)
    from_life (known life) (known target) (unknown r n) p q s k = absurd (cc k)
    from_life (known life) (known target) (known fee) p q s k =
        elim (Bool-cases (blank_or "USDT" history.ccy)) [
          | inr e ↦ absurd (cc (rw e at k))
          | inl e ↦
              from_peers life target fee (siblings d history life peers)
                (check_positions d history life.1 positions) p q s refl (rw e at k)
        ]
