-- ===== src/Wait/Log.antt =====
-- container/wait/log.go. A regular expression is a parameter, compiled already: the matches of
-- `FindAll` and of `FindAllSubmatch` in a text.
pub mod Laws
use docker_go_sdk.Common.{
  ℕ, zero, suc, ◌+◌, ◌-◌, Bool, true, false, ◌&&◌, not, Option, none, some, List, [], ◌∷◌, length,
  ltb, leb, ◌==◌, if◌then◌else◌,
}
use docker_go_sdk.Common.Bytes.{Bytes, has_prefix, cut_prefix}
use docker_go_sdk.Common.Int.{ℤ, pos, negsuc}
use docker_go_sdk.GoError.{Error, new, joined, present, Result, ok, err}
use docker_go_sdk.Wait.Target.{
  Target, Ctx, with_timeout, timeout_or_default, default_poll_interval, check_target,
}
use docker_go_sdk.Wait.Poll.{Verdict, again, finished, poll}

-- `ws.check`, as `WaitUntilReady` chooses it: the count of a text, the matches of a regular
-- expression, or a callback on its submatches.
pub data Check : Type 0 where
  text : Bytes → Check
  regexp : (Bytes → List Bytes) → Check
  submatch : (Bytes → List (List Bytes)) → (List (List Bytes) → Option Error) → Check

pub record LogStrategy : Type 0 where
  pub timeout : Option ℕ
  pub check : Check
  pub occurrence : ℕ
  pub poll_interval : ℕ

unfoldable pub new_log_strategy : Bytes → LogStrategy
new_log_strategy log = record {
  timeout = none;
  check = text log;
  occurrence = 1;
  poll_interval = default_poll_interval;
}

-- The number of occurrences needs to be positive.
unfoldable pub with_occurrence : LogStrategy → ℤ → LogStrategy
with_occurrence ws (pos zero) = record ws { occurrence = 1 }
with_occurrence ws (pos (suc n)) = record ws { occurrence = suc n }
with_occurrence ws (negsuc n) = record ws { occurrence = 1 }

-- `bytes.Count` for a separator that is not empty: occurrences that do not overlap, with the
-- bytes of the last one that are still to be skipped.
unfoldable pub count_from : ℕ → Bytes → Bytes → ℕ
count_from skip sep [] = 0
count_from (suc skip) sep (c ∷ s) = count_from skip sep s
count_from zero sep (c ∷ s) =
    if has_prefix sep (c ∷ s)
    then suc (count_from (length sep - 1) sep s)
    else count_from zero sep s

abbrev between : ℕ → ℕ → ℕ → Bool
between low high c = leb low c && leb c high

-- Whether the second byte may follow the first in UTF-8.
abbrev is_second : ℕ → ℕ → Bool
is_second c d =
    if between 0xc2 0xdf c
    then between 0x80 0xbf d
    else if c == 0xe0
    then between 0xa0 0xbf d
    else if c == 0xed
    then between 0x80 0x9f d
    else if between 0xe1 0xef c
    then between 0x80 0xbf d
    else if c == 0xf0
    then between 0x90 0xbf d
    else if c == 0xf4
    then between 0x80 0x8f d
    else between 0xf1 0xf3 c && between 0x80 0xbf d

abbrev is_continued : Bytes → Bool
is_continued [] = false
is_continued (c ∷ s) = between 0x80 0xbf c

abbrev rest_of : Bytes → Bytes
rest_of [] = []
rest_of (c ∷ s) = s

-- How many bytes behind the first belong to its code point; a byte that begins none stands alone.
abbrev following : ℕ → Bytes → ℕ
following c [] = 0
following c (d ∷ s) =
    if not (is_second c d)
    then 0
    else if ltb c 0xe0
    then 1
    else if not (is_continued s)
    then 0
    else if ltb c 0xf0
    then 2
    else if is_continued (rest_of s)
    then 3
    else 0

-- `utf8.RuneCount`, with the bytes of a code point that are still to be skipped.
unfoldable pub runes_from : ℕ → Bytes → ℕ
runes_from skip [] = 0
runes_from (suc skip) (c ∷ s) = runes_from skip s
runes_from zero (c ∷ s) = suc (runes_from (following c s) s)

unfoldable pub count : Bytes → Bytes → ℕ
unfolding count_from runes_from cut_prefix
count s [] = runes_from zero s + 1
count s (c ∷ sep) = count_from zero (c ∷ sep) s

-- The state of the loop: `lastLen` and `lastError` besides the world.
pub record LogState (W : Type 0) : Type 0 where
  pub world : W
  pub last_len : ℕ
  pub last_error : Option Error

-- `checkCount`, `checkRegexp` and `checkSubmatch`
unfoldable pub run_check : Check → ℕ → Bytes → Option Error
unfolding count
run_check (text log) occurrence b =
    if ltb (count b log) occurrence then some (new "matched too few times") else none
run_check (regexp find_all) occurrence b =
    if ltb (length (find_all b)) occurrence then some (new "matched too few times") else none
run_check (submatch find_all callback) occurrence b = callback (find_all b)

abbrev is_error : Option Error → Bool
is_error none = false
is_error (some e) = true

-- `is_permanent` tells whether `errors.As` finds a `PermanentError`.
module _ {W : Type 0} (t : Target W) (is_permanent : Error → Bool) (ws : LogStrategy) where
  abbrev asleep : LogState W → W → LogState W
  asleep s w = record s { world = t.sleep ws.poll_interval w }

  abbrev after_check : LogState W → ℕ → Option Error → W → Verdict × LogState W
  after_check s len none w = (finished none, record s { world = w })
  after_check s len (some e) w =
      if is_permanent e then (finished (some e), record s { world = w }) else (
        again,
        record { world = t.sleep ws.poll_interval w; last_len = len; last_error = some e },
      )

  abbrev after_logs : LogState W → Option Error → Result Bytes × W → Verdict × LogState W
  after_logs s target_error (err e, w) = (again, asleep s w)
  after_logs s target_error (ok b, w) =
      if s.last_len == length b && is_error target_error
      then (finished target_error, record s { world = w })
      else after_check s (length b) (run_check ws.check ws.occurrence b) w

  -- The `default` case of the loop.
  unfoldable pub log_round : LogState W → Verdict × LogState W
  log_round s =
      let (target_error, w) = check_target t s.world in after_logs s target_error (t.logs w)

  -- `(ws *LogStrategy) WaitUntilReady`; a context that is done is reported joined with the last
  -- error of the check.
  unfoldable pub log_wait : ℕ → Ctx W → W → Option (Option Error × LogState W)
  unfolding log_round
  log_wait fuel ctx w =
      poll fuel (λ s. with_timeout t (timeout_or_default ws.timeout) ctx w s.world)
        (λ s e. joined (present (s.last_error ∷ some e ∷ []))) (λ s. s) log_round
        (record { world = w; last_len = 0; last_error = none })
