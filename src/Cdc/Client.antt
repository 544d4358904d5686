-- ===== src/Cdc/Client.antt =====
-- cdc/client.py. The binding `fdb` answers through the environment.
pub mod Keeps
use kafka_fdb_streamline.Common.{
  ⊤, ◌^◌, Bool, true, false, ◌&&◌, ◌||◌, not, Option, none, some, List, ◌∷◌, if◌then◌else◌, ℤ, pos,
  negsuc, ◌-◌, ltb_ℤ, eqb_ℤ,
}
use kafka_fdb_streamline.Common.Texts.{codes, bytes_lt, contains, lower, utf8}
use kafka_fdb_streamline.Errors.{
  not_supported, invalid_range, invalid_cursor, retryable, terminal, cdc_error, Exn, cdc, fdb_error,
  runtime_error, binding, api_version_conflict, type_error, value_error,
}
use kafka_fdb_streamline.Exec.{
  Result, ok, err, pure, raise, gets, lift, catch, modify, raise_if, ◌>>=◌, ◌>>◌,
}
use kafka_fdb_streamline.Serialization.Model.{Bytes, Text, Value}
use kafka_fdb_streamline.Serialization.Checks.{encodes_as_utf8}
use kafka_fdb_streamline.World.{
  FdbCall, fdb_get_api_version, fdb_open, fdb_read_version, fdb_api_version, fdb_register,
  fdb_create_consumer, fdb_remove, fdb_list, fdb_resume_consumer, Cursor, Event, Env, M,
}

abbrev pub minimum_cdc_api_version : ℤ
minimum_cdc_api_version = pos 800

abbrev pub fdb_transaction_too_old : ℤ
fdb_transaction_too_old = pos 1007

abbrev pub fdb_server_overloaded : ℤ
fdb_server_overloaded = pos 1211

abbrev pub fdb_client_invalid_operation : ℤ
fdb_client_invalid_operation = pos 2000

-- `_native_error_code`: FDBError carries a code, and so do the consume errors of cdc/errors.py.
unfoldable pub native_error_code : Exn → Option ℤ
native_error_code (fdb_error code) = some code
native_error_code (cdc (retryable code)) = some code
native_error_code (cdc (terminal code)) = some code
native_error_code _ = none

consume_failure_of : Exn → Option ℤ → Exn
consume_failure_of e none = cdc cdc_error
consume_failure_of e (some code) =
    if eqb_ℤ code fdb_server_overloaded
    then cdc (retryable code)
    else if eqb_ℤ code fdb_transaction_too_old || eqb_ℤ code fdb_client_invalid_operation
    then cdc (terminal code)
    else e

-- The exception that `_raise_consume_failure` raises.
unfoldable pub consume_failure : Exn → Exn
unfolding native_error_code consume_failure_of
consume_failure e = consume_failure_of e (native_error_code e)

-- `_to_bytes`; encoding a surrogate raises UnicodeEncodeError, a ValueError.
unfoldable pub to_bytes : Value → Result Bytes
to_bytes (Value.bytes name) = ok name
to_bytes (Value.str name) = if encodes_as_utf8 name then ok (utf8 name) else err value_error
to_bytes _ = err type_error

-- The test of `_translate_cdc_runtime_error` on a message.
unfoldable pub lacks_native_cdc : Text → Bool
lacks_native_cdc text =
    let message = lower text in
    contains (codes "native cdc") message
    && (contains (codes "does not support") message
        || contains (codes "requires api version") message)

-- `except RuntimeError as exc: _translate_cdc_runtime_error(exc)`
unfoldable pub translate_cdc_runtime_error : {A : Type 0} → Exn → M A
translate_cdc_runtime_error (runtime_error (binding text)) =
    raise (if lacks_native_cdc text then cdc not_supported else runtime_error (binding text))
translate_cdc_runtime_error e = raise e

-- Each coordinate of a cursor: present, and an exact int from `low` up to, not including, `high`.
unfoldable pub coordinate : Option Value → ℤ → ℤ → Result ℤ
coordinate (some (Value.int value)) low high =
    if ltb_ℤ value low || not (ltb_ℤ value high) then err (cdc invalid_cursor) else ok value
coordinate _ low high = err (cdc invalid_cursor)

unfoldable pub set_db : Bool → M ⊤
unfolding modify
set_db is_open = modify (λ w. record w { client = record w.client { db = is_open } })

unfoldable pub close_client : M ⊤
close_client = set_db false

unfoldable pub valid_range : Value → Value → Result (Bytes × Bytes)
valid_range (Value.bytes begin_key) (Value.bytes end_key) =
    if bytes_lt begin_key end_key then ok (begin_key, end_key) else err (cdc invalid_range)
valid_range _ _ = err (cdc invalid_range)

module _ (env : Env) where
  unfoldable pub fdb : FdbCall → M ℤ
  fdb call w =
      let reply = env.fdb w.trace call in
      (reply, record w { trace = Event.fdb call reply ∷ w.trace })

  -- `except RuntimeError` of `init_fdb`: no version set yet, so select it.
  unfoldable pub select_api_version : ℤ → Exn → M ℤ
  select_api_version api_version (runtime_error (binding text)) =
      if contains (codes "not set") text
      then fdb (fdb_api_version api_version)
      else raise (runtime_error (binding text))
  select_api_version api_version e = raise e

  unfoldable pub init_fdb : ℤ → M ⊤
  init_fdb api_version = do
    raise_if (ltb_ℤ api_version minimum_cdc_api_version) (cdc not_supported)
    raise_if (not env.fdb_installed) (cdc not_supported)
    catch
        (do
          current ← fdb fdb_get_api_version
          raise_if (not (eqb_ℤ current api_version)) (runtime_error api_version_conflict)
          pure current)
        (select_api_version api_version)
    pure tt

  -- `FDBClient.open`, and the property `db`.
  unfoldable pub open_client : M ⊤
  open_client = do
    client ← gets (λ w. w.client)
    if client.db then pure tt else do init_fdb client.api_version; fdb fdb_open; set_db true

  unfoldable pub register_cdc_stream : Value → Value → Value → M ℤ
  register_cdc_stream name begin_key end_key = do
    (begin, end) ← lift (valid_range begin_key end_key)
    catch (do open_client; raw ← lift (to_bytes name); fdb (fdb_register raw begin end))
        translate_cdc_runtime_error

  unfoldable pub create_cdc_consumer : Value → M ℤ
  create_cdc_consumer name =
      catch (do open_client; raw ← lift (to_bytes name); fdb (fdb_create_consumer raw))
        translate_cdc_runtime_error

  unfoldable pub resume_cdc_consumer : Cursor → M ℤ
  resume_cdc_consumer cursor = do
    lift (coordinate cursor.stream_id (pos 0) (pos (2 ^ 64)))
    lift (coordinate cursor.last_consumed_version (negsuc (2 ^ 63 - 1)) (pos (2 ^ 63)))
    catch (do open_client; fdb (fdb_resume_consumer cursor)) translate_cdc_runtime_error

  unfoldable pub remove_cdc_stream : Value → M ℤ
  remove_cdc_stream name =
      catch (do open_client; raw ← lift (to_bytes name); fdb (fdb_remove raw))
        translate_cdc_runtime_error

  -- What the native listing has, where it does not raise, is the argument.
  unfoldable pub list_cdc_streams : {A : Type 0} → List A → M (List A)
  list_cdc_streams streams =
      catch (do open_client; fdb fdb_list; pure streams) translate_cdc_runtime_error

  unfoldable pub get_read_version : M ℤ
  get_read_version = do open_client; fdb fdb_read_version
