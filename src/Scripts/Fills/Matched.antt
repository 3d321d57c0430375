-- ===== src/Scripts/Fills/Matched.antt =====
-- Proofs on the matching in reconcile of scripts/fill_accounting.py: which fills are taken.
use okxquant.Prelude.{
  String, Bool, true, false, ◌||◌, ◌≡◌, refl, inl, inr, Option, none, some, List, [], ◌∷◌, ◌++◌,
  Bool-cases, All, All-append, any_of, str_eq,
}
use okxquant.Prelude.Table.{Distinct, Distinct-append}
use okxquant.Prelude.Int.{ℤ}
use okxquant.Scripts.Fills.Records.{
  Decimals, Outcome, unknown, known, Fill, to_number, is_value, blank_or, same_fill,
}
use okxquant.Scripts.Fills.Match.{
  within, find_fill, put_fill, identify, match_at, match_fill, match_fills,
}
use okxquant.Scripts.Fills.Sums.{amount_of, to_number-amount}

abbrev pub same_key : String × Fill → String × Fill → Bool
same_key (a, _) (b, _) = str_eq a b

-- A fill of this position alone: one of those given by P, of its side, in its life, in no overlapping
-- life, under its own bill id.
pub record IsMatched (P : Fill → Type 0) (d : Decimals) (direction : String) (others : List (ℤ × ℤ))
    (life : ℤ × ℤ) (m : String × Fill) : Type 0 where
  pub taken : P m.1
  pub bill : m.1.bill_id ≡ some m.0
  pub side : is_value direction m.1.pos_side ≡ true
  pub inside : within (amount_of d m.1.ts) life ≡ true
  pub alone : any_of (within (amount_of d m.1.ts)) others ≡ false

find_fill-none :
    (id : String) (f : Fill) (ms : List (String × Fill))
    → find_fill id ms ≡ none
    → All (λ m. same_key m (id, f) ≡ false) ms
unfolding find_fill
find_fill-none id f [] h = tt
find_fill-none id f ((key, g) ∷ ms) h = elim (Bool-cases (str_eq key id)) [
  | inl e ↦ absurd (cc (rw e at h))
  | inr e ↦ (e, find_fill-none id f ms (rw e at h))
]

module _ (P : Fill → Type 0) (d : Decimals) (direction : String) (others : List (ℤ × ℤ))
    (life : ℤ × ℤ) where
  -- The fills taken so far.
  abbrev AllMatched : List (String × Fill) → Type 0
  AllMatched ms = All (IsMatched P d direction others life) ms × Distinct same_key ms

  put-AllMatched :
      (id : String) (f : Fill) (ms ns : List (String × Fill)) (o : Option Fill)
      → IsMatched P d direction others life (id, f)
      → find_fill id ms ≡ o
      → put_fill id f ms o ≡ known ns
      → AllMatched ms
      → AllMatched ns
  unfolding put_fill
  put-AllMatched id f ms ns none new found e (h, apart) =
      let same : ms ++ ((id, f) ∷ []) ≡ ns = cc e in
      rw (← same) (
        All-append (IsMatched P d direction others life) ms ((id, f) ∷ []) h (new, tt),
        Distinct-append same_key (id, f) ms apart (find_fill-none id f ms found),
      )
  put-AllMatched id f ms ns (some old) new found e (h, apart) =
      elim (Bool-cases (same_fill old f)) [
        | inl k ↦ let same : ms ≡ ns = cc (rw k at e) in rw (← same) (h, apart)
        | inr k ↦ absurd (cc (rw k at e))
      ]

  identify-AllMatched :
      (bill ord : Option String) (f : Fill) (ms ns : List (String × Fill))
      → ((id : String) → bill ≡ some id → IsMatched P d direction others life (id, f))
      → identify bill ord f ms ≡ known ns
      → AllMatched ms
      → AllMatched ns
  unfolding identify
  identify-AllMatched none ord f ms ns new e h = absurd (cc e)
  identify-AllMatched (some id) none f ms ns new e h = absurd (cc e)
  identify-AllMatched (some id) (some ord) f ms ns new e h =
      elim (Bool-cases (str_eq id "" || str_eq ord "")) [
        | inl k ↦ absurd (cc (rw k at e))
        | inr k ↦ put-AllMatched id f ms ns (find_fill id ms) (new id refl) refl (rw k at e) h
      ]

  match_at-AllMatched :
      (f : Fill) (ms ns : List (String × Fill)) (t : ℤ)
      → P f
      → amount_of d f.ts ≡ t
      → match_at direction others life f ms t ≡ known ns
      → AllMatched ms
      → AllMatched ns
  unfolding match_at
  match_at-AllMatched f ms ns t given at e h = elim (Bool-cases (within t life)) [
    | inr a ↦ let same : ms ≡ ns = cc (rw a at e) in rw (← same) h
    | inl a ↦ elim (Bool-cases (any_of (within t) others)) [
      | inl b ↦ absurd (cc (rw (a, b) at e))
      | inr b ↦ elim (Bool-cases (is_value direction f.pos_side)) [
        | inr c ↦ absurd (cc (rw (a, b, c) at e))
        | inl c ↦
            identify-AllMatched f.bill_id f.ord_id f ms ns
              (λ id k. record {
                taken = given;
                bill = k;
                side = c;
                inside = rw at a;
                alone = rw at b;
              })
              (rw (a, b, c) at e) h
      ]
    ]
  ]

  match_fill-AllMatched :
      (f : Fill) (ms ns : List (String × Fill))
      → P f
      → match_fill d direction others life f ms ≡ known ns
      → AllMatched ms
      → AllMatched ns
  unfolding match_fill
  match_fill-AllMatched f ms ns given e h =
      elim (Bool-cases (blank_or "net" f.pos_side || is_value direction f.pos_side)) [
        | inr a ↦ let same : ms ≡ ns = cc (rw a at e) in rw (← same) h
        | inl a ↦ go (to_number d true true f.ts) refl (rw a at e)
      ]
    where
      go :
          (o : Outcome ℤ)
          → to_number d true true f.ts ≡ o
          → elim o as (λ _. Outcome (List (String × Fill))) [
            | unknown r n ↦ unknown r n
            | known t ↦ match_at direction others life f ms t
          ]
            ≡ known ns
          → AllMatched ns
      go (unknown r n) q k = absurd (cc k)
      go (known t) q k =
          match_at-AllMatched f ms ns t given (to_number-amount d true true f.ts t q) k h

  pub match_fills-AllMatched :
      (fs : List Fill) (ms ns : List (String × Fill))
      → All P fs
      → match_fills d direction others life fs ms ≡ known ns
      → AllMatched ms
      → AllMatched ns
  unfolding match_fills
  match_fills-AllMatched [] ms ns given e h = let same : ms ≡ ns = cc e in rw (← same) h
  match_fills-AllMatched (f ∷ fs) ms ns given e h =
      go (λ mid k q. match_fills-AllMatched fs mid ns given.1 k q)
        (match_fill d direction others life f ms) refl e
    where
      go :
          ((mid : List (String × Fill))
            → match_fills d direction others life fs mid ≡ known ns
            → AllMatched mid
            → AllMatched ns)
          → (o : Outcome (List (String × Fill))) → match_fill d direction others life f ms ≡ o
          → elim o as (λ _. Outcome (List (String × Fill))) [
            | unknown r n ↦ unknown r n
            | known more ↦ match_fills d direction others life fs more
          ]
            ≡ known ns
          → AllMatched ns
      go next (unknown r n) q k = absurd (cc k)
      go next (known mid) q k = next mid k (match_fill-AllMatched f ms mid given.0 q h)
