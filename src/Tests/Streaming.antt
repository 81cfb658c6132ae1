-- ===== src/Tests/Streaming.antt =====
-- The events and the documents of `RedisStreamsStore` in level2_service/queue.py at concrete inputs.
use Prim.Native.Char.{code}
use tonghuashun.Base.{
  ℕ, zero, suc, ◌≡◌, ◌≢◌, ◌⊎◌, refl, String, Bool, true, false, Option, none, some, [], ◌∷◌, ◌++◌,
  arith, ◌==◌, nat_eq, if◌then◌else◌, eq_iff, Bool-cases, inl, inr, ap,
}
use tonghuashun.Dict.{get}
use tonghuashun.Models.{TaskStatus, CaptureKind, new_task, capture_of}
use tonghuashun.Redis.{RedisStore, Server}
use tonghuashun.Redis.Find.{resolve_task_id}
use tonghuashun.Redis.Events.{xrange, events_of, events_after_cursor}
use tonghuashun.Redis.Events.Pages.{events_after_cursor-events_of}
use tonghuashun.Redis.Results.{
  transition, complete_capture, complete_result, complete_market_snapshot,
}
use tonghuashun.Redis.Results.Unwritten.{concluded-same}
use tonghuashun.Redis.Codec.{TimeFormat, map_option, serialize, deserialize}
use tonghuashun.Redis.Codec.RoundTrip.{deserialize-serialize}
use tonghuashun.Tests.{first_task, server_at, two_stored}
use tonghuashun.Tests.Concluding.{given}

abbrev streamed : RedisStore
streamed = record two_stored {
  events =
      record { entry_id = 1; task_id = "a"; status = TaskStatus.queued }
      ∷ record { entry_id = 2; task_id = "b"; status = TaskStatus.queued }
      ∷ record { entry_id = 3; task_id = "a"; status = TaskStatus.running }
      ∷ [];
}

events_after_cursor-events_of_example :
    ((events_after_cursor "a" none 1 streamed).0
        ++ events_of "a" (xrange (events_after_cursor "a" none 1 streamed).1 streamed.events)
      ≡ events_of "a" (xrange none streamed.events))
    × (((events_after_cursor "a" none 1 streamed).0 ≢ [])
        ⊎ (events_of "a" (xrange none streamed.events) ≡ []))
unfolding resolve_task_id get
events_after_cursor-events_of_example =
    events_after_cursor-events_of "a" "a" none 1 streamed
      (omega arith, (omega arith, (omega arith, tt))) refl

-- A format of times: as many marks as the number says, and an end.
format : ℕ → String
format zero = "T"
format (suc n) = String.◌∷◌ "I" (format n)

scan : String → Option ℕ
scan String.[] = none
scan (String.◌∷◌ c s) =
    let rest = scan s in if nat_eq (code c) b'T' then some 0 else map_option suc rest

abbrev iso : TimeFormat
unfolding format scan
iso = record { isoformat = format; fromisoformat = scan }

scan-format : (t : ℕ) → scan (format t) ≡ some t
unfolding format scan
scan-format zero = refl
scan-format (suc n) = rw (scan-format n) refl

is_empty : String → Bool
is_empty String.[] = true
is_empty (String.◌∷◌ c s) = false

format_filled : (t : ℕ) → (format t == "") ≡ false
unfolding format is_empty
format_filled zero = refl
format_filled (suc n) = elim (Bool-cases (format (suc n) == "")) [
  | inl e ↦ absurd (ground (arith, ap is_empty ((eq_iff (format (suc n)) "").0 e)))
  | inr e ↦ e
]

no_path : (kind : CaptureKind) → (capture_of first_task.captures kind).path ≡ none
unfolding capture_of new_task
no_path CaptureKind.large_order_net = refl
no_path CaptureKind.large_order_amount = refl
no_path CaptureKind.retail_count = refl

deserialize-serialize_example : deserialize iso (serialize iso first_task) ≡ some first_task
unfolding format scan new_task capture_of
deserialize-serialize_example =
    deserialize-serialize iso scan-format format_filled first_task (record {
      maintenance = refl;
      captures = λ kind p e. absurd (ground (arith, no_path kind));
      long_capture = λ p e. absurd (ground arith);
      sources = λ kind e. refl;
    })

-- A server that writes no event.
abbrev deaf : Server
deaf = record (server_at 9) { writes_event = false }

concluded-same_example :
    ((transition deaf "b" TaskStatus.running none none two_stored).1 ≡ two_stored)
    × ((complete_capture deaf "b" CaptureKind.retail_count "p" two_stored).1 ≡ two_stored)
    × ((complete_result deaf "b" (given none) two_stored).1 ≡ two_stored)
    × ((complete_market_snapshot deaf "b" [] two_stored).1 ≡ two_stored)
unfolding new_task get
concluded-same_example =
    concluded-same deaf refl two_stored (refl, refl, (refl, refl, tt)) "b" TaskStatus.running none
      none CaptureKind.retail_count "p" (given none) []
