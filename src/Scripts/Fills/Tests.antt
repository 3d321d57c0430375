-- ===== src/Scripts/Fills/Tests.antt =====
-- Runs of scripts/fill_accounting.py at concrete inputs: a long position of two fills.
use okxquant.Prelude.{
  String, Text, true, false, ◌≡◌, refl, none, some, List, [], ◌∷◌, str_eq, if◌then◌else◌, All,
}
use okxquant.Prelude.Table.{Distinct}
use okxquant.Prelude.Int.{ℤ, pos, negsuc}
use okxquant.Scripts.Fills.Records.{
  Decimals, known, Fill, Receipt, available, swap_suffix, interval, to_number,
}
use okxquant.Scripts.Fills.Match.{siblings}
use okxquant.Scripts.Fills.Reconcile.{Allocation, reconcile}
use okxquant.Scripts.Fills.Matched.{same_key, IsMatched}
use okxquant.Scripts.Fills.Account.{IsAccount}
use okxquant.Scripts.Fills.Verified.{InArchive, reconcile-IsAccount}

abbrev decimals : Decimals
decimals = record {
  places = 0;
  read = λ s.
      if str_eq s "1"
      then some (pos 100000000)
      else if str_eq s "2"
      then some (pos 200000000)
      else if str_eq s "3"
      then some (pos 300000000)
      else if str_eq s "-1"
      then some (negsuc 99999999)
      else if str_eq s "-2"
      then some (negsuc 199999999)
      else none;
}

abbrev opening_fill : Fill
opening_fill = record {
  pos_side = some "long";
  ts = some "1";
  bill_id = some "b1";
  ord_id = some "o1";
  fee_ccy = some "USDT";
  side = some "buy";
  fill_sz = some "2";
  fee = some "-1";
  rest = "";
}

abbrev closing_fill : Fill
closing_fill = record opening_fill { ts = some "3"; bill_id = some "b2"; side = some "sell" }

abbrev receipt : Receipt
receipt = record {
  inst_id = swap_suffix;
  direction = "long";
  pos_id = "7";
  c_time = some "1";
  u_time = some "3";
  close_total_pos = some "2";
  fee = some "-2";
  ccy = some "USDT";
}

abbrev archived : List (Text × List Fill)
archived =
    ([], closing_fill ∷ []) ∷ (swap_suffix, opening_fill ∷ closing_fill ∷ opening_fill ∷ []) ∷ []

abbrev allocation : Allocation
allocation = record {
  open_fee = negsuc 99999999;
  close_fee = negsuc 99999999;
  matched_fills = 2;
  opening_size = pos 200000000;
  closing_size = pos 200000000;
  receipt_fee = negsuc 199999999;
  allocated_fee = negsuc 199999999;
}

receipt_reconciled : reconcile decimals receipt (available archived) [] [] ≡ known allocation
unfolding reconcile
receipt_reconciled = refl

reconcile-IsAccount_example :
    (life : ℤ × ℤ) × (target : ℤ) × (receipt_fee : ℤ) × (others : List (ℤ × ℤ)) × (m : List
      (String × Fill))
    × (interval decimals receipt ≡ known life)
    × (to_number decimals true false receipt.close_total_pos ≡ known target)
    × (to_number decimals false false receipt.fee ≡ known receipt_fee)
    × (siblings decimals receipt life [] ≡ known others)
    × All (IsMatched (InArchive swap_suffix archived) decimals "long" others life) m
    × Distinct same_key m
    × IsAccount decimals "long" target receipt_fee m allocation
reconcile-IsAccount_example =
    reconcile-IsAccount decimals receipt archived [] [] allocation receipt_reconciled
