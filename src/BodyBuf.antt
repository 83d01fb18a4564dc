-- ===== src/BodyBuf.antt =====
-- internal/bodybuf/bodybuf.go: the part of a body that is read for inspection.
pub mod Capture
mod Tests
use ravenguard.Common.{
  ℕ, suc, Bool, true, false, Option, none, some, List, [], ◌∷◌, ◌++◌, leb, ltb, ◌&&◌, ◌==◌,
  if◌then◌else◌, Bytes, length, take, drop,
}

-- What is left of a stream: its bytes, and whether an error stands in place of the end behind them. An
-- error comes in a call of Read of its own.
pub record Stream : Type 0 where
  pub content : Bytes
  pub broken : Bool

-- The body of a request: none (nil or http.NoBody), the stream of the connection, a reader over bytes
-- in memory, or such bytes in front of what is left of the stream.
pub data Body : Type 0 where
  no_body : Body
  raw : Stream → Body
  memory : Bytes → Body
  joined : Bytes → Stream → Body

-- The fields of a request that Capture reads or sets: the length is none for -1, and GetBody replays
-- bytes or is nil.
pub record Request : Type 0 where
  pub body : Body
  pub content_length : Option ℕ
  pub get_body : Option Bytes

-- What a body delivers.
abbrev pub delivers : Body → Stream
delivers no_body = record { content = []; broken = false }
delivers (raw s) = s
delivers (memory b) = record { content = b; broken = false }
delivers (joined b s) = record s { content = b ++ s.content }

-- readAllAppend on an io.LimitReader: the bytes read, what is left, and whether there was an error. At
-- the limit the stream is not read any further.
unfoldable pub read_all : ℕ → Stream → Bytes × Stream × Bool
read_all limit s = (
  take limit s.content,
  record s { content = drop limit s.content },
  ltb (length s.content) limit && s.broken,
)

-- Capture of the stream: the request after it and the captured bytes, none being an error.
unfoldable pub capture_stream : ℕ → Stream → Request → Request × Option Bytes
unfolding read_all
capture_stream max s r =
    let (buf, rest, failed) = read_all (suc max) s in
    if failed
    then (record r { body = raw rest }, none)
    else if leb (length buf) max
    then (
      record { body = memory buf; content_length = some (length buf); get_body = some buf },
      some buf,
    )
    else (record r { body = joined buf rest; get_body = none }, some (take max buf))

abbrev pub is_no_body : Body → Bool
is_no_body no_body = true
is_no_body (raw s) = false
is_no_body (memory b) = false
is_no_body (joined b s) = false

-- Capture; maxBytes is not negative and maxBytes + 1 does not overflow.
unfoldable pub capture : ℕ → Request → Request × Option Bytes
unfolding capture_stream
capture max r =
    if is_no_body r.body
    then (r, some [])
    else if max == 0
    then (r, some [])
    else capture_stream max (delivers r.body) r

-- Restore
unfoldable pub restore : Bytes → Request → Request
restore [] r = record { body = no_body; content_length = some 0; get_body = none }
restore (c ∷ buf) r = record {
  body = memory (c ∷ buf);
  content_length = some (length (c ∷ buf));
  get_body = some (c ∷ buf);
}
