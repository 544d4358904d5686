-- ===== src/Cdc/Construct.antt =====
-- cdc/listener.py, FDBMutationListener.__init__. Its seconds become ticks of the monotonic clock.
use kafka_fdb_streamline.Common.{
  ℕ, true, false, ◌&&◌, ◌||◌, Option, none, some, [], ◌∷◌, is_some, if◌then◌else◌, pos, pos_part,
  ltb_ℤ, ◌≡◌, ◌<◌, refl, ap, subst, arith, All, negsuc, inl, inr, Bool-cases,
}
use kafka_fdb_streamline.Common.Number.{Number, not_positive}
use kafka_fdb_streamline.Common.Decode.{decode, encodable, decode-utf8}
use kafka_fdb_streamline.Errors.{type_error, value_error}
use kafka_fdb_streamline.Exec.{Result, ok, err}
use kafka_fdb_streamline.Exec.Outcome.{◌>>=◌, ◌>>◌, refuse_if, bind_ok, guard_ok, ok_injective}
use kafka_fdb_streamline.Serialization.Model.{Bytes, Text, Value}
use kafka_fdb_streamline.Serialization.Checks.{encodes_as_utf8}
use kafka_fdb_streamline.World.{Cursor, Listener}
use kafka_fdb_streamline.Cdc.Client.{to_bytes}
use kafka_fdb_streamline.Cdc.KeyRange.{Subspace, subspace_to_key_range}

-- The arguments besides the client. A time is `none` where it is no int or float, or a bool.
pub record Arguments : Type 0 where
  pub stream_name : Value
  pub key_range : Option (Value × Value)
  pub subspace : Option Subspace
  pub cursor : Option Cursor
  pub max_record_bytes : Value
  pub resume_timeout_seconds : Option Number
  pub resume_poll_interval_seconds : Option Number

-- The check of `max_record_bytes`: an exact int of at least 1.
unfoldable pub record_limit : Value → Result ℕ
record_limit (Value.int z) = if ltb_ℤ z (pos 1) then err value_error else ok (pos_part z)
record_limit _ = err type_error

-- The check of a time.
unfoldable pub positive_seconds : Option Number → Result Number
positive_seconds none = err type_error
positive_seconds (some seconds) = if not_positive seconds then err value_error else ok seconds

unfoldable pub key_range_of :
    Option Subspace → Option (Value × Value) → Result (Option (Value × Value))
key_range_of none key_range = ok key_range
key_range_of (some subspace) _ =
    subspace_to_key_range subspace >>= λ range. ok (some (Value.bytes range.0, Value.bytes range.1))

-- `__init__`
unfoldable pub construct : (Number → ℕ) → Arguments → Result Listener
construct ticks a = do
  refuse_if (is_some a.key_range && is_some a.subspace) value_error
  max_record_bytes ← record_limit a.max_record_bytes
  resume_timeout ← positive_seconds a.resume_timeout_seconds
  resume_poll_interval ← positive_seconds a.resume_poll_interval_seconds
  raw_stream_name ← to_bytes a.stream_name
  key_range ← key_range_of a.subspace a.key_range
  ok (record {
    raw_stream_name = raw_stream_name;
    stream_name = decode raw_stream_name;
    key_range = key_range;
    initial_cursor = a.cursor;
    max_record_bytes = max_record_bytes;
    resume_timeout = ticks resume_timeout;
    resume_poll_interval = ticks resume_poll_interval;
    consumer = false;
    is_closed = false;
    awaiting_ack = false;
    delivery_failed = false;
  })

-- A listener that has not been started, as its arguments ask for it.
pub record IsConstructed (a : Arguments) (l : Listener) : Type 0 where
  pub unstarted : (l.consumer || l.is_closed || l.awaiting_ack || l.delivery_failed) ≡ false
  pub one_range : (is_some a.key_range && is_some a.subspace) ≡ false
  pub limit : a.max_record_bytes ≡ Value.int (pos l.max_record_bytes)
  pub room : 0 < l.max_record_bytes
  pub named : to_bytes a.stream_name ≡ ok l.raw_stream_name
  pub ranged : key_range_of a.subspace a.key_range ≡ ok l.key_range
  pub resumes : l.initial_cursor ≡ a.cursor

negative : (m : ℕ) → record_limit (Value.int (negsuc m)) ≡ err value_error
unfolding record_limit
negative m = ground arith

record_limit_lem : (v : Value) (n : ℕ) → record_limit v ≡ ok n → (v ≡ Value.int (pos n)) × (0 < n)
unfolding record_limit
record_limit_lem (Value.int (pos m)) n h =
    (ap (λ k. Value.int (pos k)) (ground arith), ground arith)
record_limit_lem (Value.int (negsuc m)) n h = (cc (h, negative m), ground arith)
record_limit_lem _ n h = (cc, ground arith)

-- A listener that the constructor returns has not started, has no more than one source of a key range, a
-- record limit that is the given exact int and at least 1, the name and range that were asked for, and the
-- given cursor.
pub construct-IsConstructed :
    (ticks : Number → ℕ) (a : Arguments) (l : Listener)
    → construct ticks a ≡ ok l
    → IsConstructed a l
unfolding construct
construct-IsConstructed ticks a l returned =
    let (single, h1) =
      guard_ok (is_some a.key_range && is_some a.subspace) value_error _ returned in
    let (limit, limited, h2) = bind_ok (record_limit a.max_record_bytes) _ h1 in
    let (timeout, _, h3) = bind_ok (positive_seconds a.resume_timeout_seconds) _ h2 in
    let (interval, _, h4) = bind_ok (positive_seconds a.resume_poll_interval_seconds) _ h3 in
    let (name, named, h5) = bind_ok (to_bytes a.stream_name) _ h4 in
    let (range, ranged, same) = bind_ok (key_range_of a.subspace a.key_range) _ h5 in
    let (exact, room) = record_limit_lem a.max_record_bytes limit limited in
    subst (IsConstructed a) (ok_injective same) (record {
      unstarted = refl;
      one_range = single;
      limit = exact;
      room = room;
      named = named;
      ranged = ranged;
      resumes = refl;
    })

encodable_of :
    (text : Text)
    → encodes_as_utf8 text ≡ true
    → All (λ c. c < 0x110000) text
    → All (λ c. encodable c ≡ true) text
unfolding encodes_as_utf8
encodable_of [] h small = tt
encodable_of (c ∷ text) h small =
    let bound = small.0 in (ground arith, encodable_of text (ground arith) small.1)

to_bytes-decode :
    (text : Text) (raw : Bytes)
    → All (λ c. c < 0x110000) text
    → to_bytes (Value.str text) ≡ ok raw
    → decode raw ≡ text
unfolding to_bytes
to_bytes-decode text raw small returned = elim (Bool-cases (encodes_as_utf8 text)) [
  | inl encodes ↦
      subst (λ bytes. decode bytes ≡ text) (ground arith)
        (decode-utf8 text (encodable_of text encodes small))
  | inr surrogate ↦ ground arith
]

-- A listener that is constructed with a str for its stream name has that str for its own name: encoding
-- and decoding it with replacement change nothing.
pub construct-stream_name :
    (ticks : Number → ℕ) (a : Arguments) (text : Text) (l : Listener)
    → a.stream_name ≡ Value.str text
    → All (λ c. c < 0x110000) text
    → construct ticks a ≡ ok l
    → l.stream_name ≡ text
unfolding construct
construct-stream_name ticks a text l given small returned =
    let (_, h1) = guard_ok (is_some a.key_range && is_some a.subspace) value_error _ returned in
    let (_, _, h2) = bind_ok (record_limit a.max_record_bytes) _ h1 in
    let (_, _, h3) = bind_ok (positive_seconds a.resume_timeout_seconds) _ h2 in
    let (_, _, h4) = bind_ok (positive_seconds a.resume_poll_interval_seconds) _ h3 in
    let (name, named, h5) = bind_ok (to_bytes a.stream_name) _ h4 in
    let (_, _, same) = bind_ok (key_range_of a.subspace a.key_range) _ h5 in
    subst (λ (x : Listener). x.stream_name ≡ text) (ok_injective same)
      (to_bytes-decode text name small (subst (λ v. to_bytes v ≡ ok name) given named))
