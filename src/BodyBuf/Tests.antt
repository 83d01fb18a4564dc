-- ===== src/BodyBuf/Tests.antt =====
-- Runs of internal/bodybuf/bodybuf.go, and its theorem at concrete requests.
use ravenguard.Common.{◌≡◌, refl, none, some, true, false, bytes, []}
use ravenguard.BodyBuf.{raw, memory, Request, delivers, read_all, capture_stream, capture, restore}
use ravenguard.BodyBuf.Capture.{IsCaptured, capture-IsCaptured}

-- A form of eight bytes whose connection closes cleanly, and one that breaks.
abbrev form : Request
form = record {
  body = raw record { content = bytes "id=1&k=2"; broken = false };
  content_length = some 8;
  get_body = none;
}

abbrev broken_form : Request
broken_form = record form { body = raw record { content = bytes "id=1&k=2"; broken = true } }

capture_fits : capture 8 form ≡ (
  record {
    body = memory (bytes "id=1&k=2");
    content_length = some 8;
    get_body = some (bytes "id=1&k=2");
  },
  some (bytes "id=1&k=2"),
)
unfolding capture capture_stream read_all
capture_fits = refl

capture_longer : (capture 4 form).1 ≡ some (bytes "id=1")
unfolding capture capture_stream read_all
capture_longer = refl

-- The error behind the body shows only if the read comes that far.
capture_breaks :
    ((capture 8 broken_form).1 ≡ none) × ((capture 7 broken_form).1 ≡ some (bytes "id=1&k="))
unfolding capture capture_stream read_all
capture_breaks = (refl, refl)

-- After an error what was read is gone.
capture_loses : delivers (capture 8 broken_form).0.body ≡ record { content = []; broken = true }
unfolding capture capture_stream read_all
capture_loses = refl

restore_captured :
    delivers (restore (bytes "id=1") form).body ≡ record { content = bytes "id=1"; broken = false }
unfolding restore
restore_captured = refl

capture-IsCaptured_example : IsCaptured 4 (delivers form.body) (capture 4 form)
capture-IsCaptured_example = capture-IsCaptured 4 form
