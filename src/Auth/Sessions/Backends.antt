-- ===== src/Auth/Sessions/Backends.antt =====
-- `_MemoryBackend` of backend/app/auth/utils.py, a dictionary of payloads.
use compliance_pulse.Prelude.{Text, Dict, lookup, insert, remove, lookup-insert, lookup-remove}
use compliance_pulse.Auth.Payload.{Codec, IsCodec}
use compliance_pulse.Auth.Sessions.{Backend, IsBackend}

abbrev pub memory_backend : Codec → Backend (Dict Text)
memory_backend codec = record {
  read = λ key s. lookup key s;
  write = λ key payload ttl_seconds s. insert key payload s;
  delete = λ key s. remove key s;
  codec = codec;
}

pub memory_backend-IsBackend : (codec : Codec) → IsCodec codec → IsBackend (memory_backend codec)
memory_backend-IsBackend codec laws = record {
  read-write = λ key other payload ttl_seconds s. lookup-insert key other payload s;
  read-delete = λ key other s. lookup-remove key other s;
  is_codec = laws;
}
