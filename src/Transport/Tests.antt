-- ===== src/Transport/Tests.antt =====
-- The theorems about the tries and the usage at a concrete upstream: it breaks off, answers 500, then 200.
use qcc_plus.Prelude.{ℕ, zero, suc, ◌≡◌, refl, pos, false, some, none, List, [], ◌∷◌, length}
use qcc_plus.Transport.Defs.{Answer, broken, replied, bytes, Transport, attempt_count, round_trip}
use qcc_plus.Transport.Usage.{
  UsageReader, close, read_all, tracked, take, usage_buf_limit, joined, read_all-close,
}
use qcc_plus.Transport.Outcome.{Explains, round_trip-Explains}

abbrev answers : ℕ → Answer
answers zero = broken false "connection reset"
answers (suc zero) = replied 500 (bytes "busy")
answers (suc (suc i)) = replied 200 (bytes "done")

abbrev transport : Transport
transport = record {
  base = some answers;
  attempts = pos 3;
  cancelled = λ i. none;
  describe = λ status body. "upstream status";
  error_json = λ e. "{}";
}

round_trip-Explains_example :
    Explains transport answers (attempt_count transport.attempts) (round_trip transport)
round_trip-Explains_example = round_trip-Explains transport answers refl

abbrev reader : UsageReader
reader = record { buf = []; tracker = some (record { input = 0; output = 0 }) }

abbrev chunks : List (List ℕ)
chunks = (1 ∷ 2 ∷ []) ∷ [] ∷ (3 ∷ []) ∷ []

-- As many tokens as bytes.
abbrev counted : List ℕ → ℕ × ℕ
counted b = (length b, 7)

read_all-close_example :
    (close counted (read_all chunks reader)).tracker
    ≡ tracked (counted (take usage_buf_limit (joined chunks))) reader.tracker
read_all-close_example = read_all-close counted chunks reader refl
