-- ===== src/Tests/Locking.antt =====
-- The theorems on resource locks at concrete data.
use decision_intelligence_ru.Prelude.{
  List, String, [], ap, arith, eq_iff, false, false≢true, inl, inr, map, mem, pos, refl, true, ℕ,
  ◌+ℤ◌, ◌∷◌, ◌≡◌, ◌≢◌, ◌≤◌,
}
use decision_intelligence_ru.Dict
use decision_intelligence_ru.Dict.{Dict}
use decision_intelligence_ru.Python.Sample.{Sample, cents, sample}
use decision_intelligence_ru.Locks.{
  acquire, acquire_batch, acquired, all_available, get_locked_amount,
}
use decision_intelligence_ru.Locks.Whole.{
  Exact, sum_ℕ, total, units, units_held, whole, whole_amounts, whole_locks,
}
use decision_intelligence_ru.Locks.Capacity.{IsSound, check_write_race, provider}
use decision_intelligence_ru.Locks.Progress.{Fits, acquire-grants}
use decision_intelligence_ru.Locks.Traces
use decision_intelligence_ru.Locks.Traces.{calls-IsSound}

sums :
    (ns : List ℕ)
    → sample.sum (map (λ n. sample.of_int (pos n)) ns) ≡ sample.of_int (pos (sum_ℕ ns))
sums [] = refl
sums (n ∷ ns) = rw (sums ns) (ap cents (unfold ◌+ℤ◌ in ground arith))

-- the sample floats are exact for all whole numbers; the bound is that of IEEE doubles
abbrev limit : ℕ
limit = 9007199254740992

exact : Exact sample limit
exact = record {
  zero_exact = refl;
  sum_exact = λ ns h. sums ns;
  sub_exact = λ a b h k. ap cents (ground arith);
  lt_exact = λ a b h k. ground arith;
}

-- 10 units of each resource
abbrev ten : String → ℕ
ten rid = 10

none_total : (rid : String) → total rid [] ≤ 10
unfolding total
none_total rid = omega arith

nothing_locked : IsSound ten []
nothing_locked = record { distinct = tt; within = none_total }

abbrev wanted : Dict ℕ
wanted = ("cash", 4) ∷ []

few : (n : ℕ) → n ≤ 100 → (rid : String) → units rid (("cash", n) ∷ []) ≤ limit
unfolding units Dict.get
few n h rid = ground arith

ten_limited : (rid : String) → ten rid ≤ limit
ten_limited rid = omega arith

abbrev flow_1 : String
flow_1 = "f1"

abbrev flow_2 : String
flow_2 = "f2"

abbrev flow_3 : String
flow_3 = "f3"

flows_1_2 : flow_1 ≢ flow_2
flows_1_2 e = false≢true ((eq_iff flow_1 flow_2).1 e)

flows_1_3 : flow_1 ≢ flow_3
flows_1_3 e = false≢true ((eq_iff flow_1 flow_3).1 e)

flows_2_3 : flow_2 ≢ flow_3
flows_2_3 e = false≢true ((eq_iff flow_2 flow_3).1 e)

check_write_race_example :
    (all_available {F = Sample} (λ r. whole 10) flow_1 (("cash", whole 6) ∷ []) [] ("cash" ∷ [])
      ≡ true)
    × (all_available {F = Sample} (λ r. whole 10) flow_2 (("cash", whole 7) ∷ []) [] ("cash" ∷ [])
        ≡ true)
    × (get_locked_amount {F = Sample} "cash" flow_3 (
          acquire_batch flow_2
            (("cash", whole 7) ∷ [])
            (acquire_batch flow_1 (("cash", whole 6) ∷ []) []))
        ≡ whole 13)
    × (sample.lt (whole 10) (whole 13) ≡ true)
check_write_race_example =
    check_write_race limit exact "cash" flow_1 flow_2 flow_3 6 7 10 flows_1_2 flows_1_3 flows_2_3
      (omega arith) (omega arith) (omega arith) (omega arith)

-- a reservation that is granted, one that is refused, and the release of the first
abbrev lock_calls : List (Traces.Call ℕ)
lock_calls =
    Traces.reserve "f1" wanted (true ∷ [])
    ∷ Traces.reserve "f2" (("cash", 7) ∷ []) (true ∷ [])
    ∷ Traces.free "f1"
    ∷ []

calls-IsSound_example :
    (m' : Dict (Dict ℕ)) × (Traces.calls
        (provider {F = Sample} limit exact ten ten_limited)
        (whole_locks [])
        (map Traces.whole_call lock_calls)
      ≡ whole_locks m')
    × IsSound ten m'
calls-IsSound_example =
    calls-IsSound limit exact ten ten_limited [] lock_calls
      (few 4 (omega arith), (few 7 (omega arith), (tt, tt))) nothing_locked

wanted-Fits : (rid : String) → mem rid (Dict.keys wanted) ≡ true → Fits ten "f1" wanted [] rid
unfolding units Dict.get units_held
wanted-Fits rid h = ground arith

-- the backend refuses once
acquire-grants_example :
    acquire
      (provider {F = Sample} limit exact ten ten_limited)
      "f1"
      (whole_amounts wanted)
      (false ∷ true ∷ [])
      (whole_locks [])
    ≡ (whole_locks (Dict.set "f1" wanted []), acquired)
acquire-grants_example =
    acquire-grants limit exact ten ten_limited "f1" wanted (false ∷ true ∷ []) [] nothing_locked
      wanted-Fits (inr (inl refl))
