-- ===== src/Octopus/Options.antt =====
-- pkg/octopus/options.go: the options of a connection, and what is written to the hash that identifies
-- it. CRC32 itself is third-party: the model keeps the bytes that were written. A duration is an int64
-- as its 64 bits. Of a logger the model has its identity and what binary.Write writes of it, if it can.
pub mod Identity
use activerecord.Prelude.{
  ℕ, List, [], ◌∷◌, ◌++◌, Option, none, some, Bool, true, false, ◌==◌, if◌then◌else◌,
}
use activerecord.Go.{Result, ok, err, panic, Bytes, ◌>>=◌}
use activerecord.Iproto.Pack.{mode_default, pack_uint64}

pub data OptionError : Type 0 where
  empty_server calculated_before not_written : OptionError

-- iproto.PoolConfig with its ChannelConfig; the two loggers are set together and are one field.
pub record PoolConfig : Type 0 where
  pub size : ℕ
  pub connect_timeout : ℕ
  pub dial_timeout : ℕ
  pub redial_interval : ℕ
  pub max_redial_interval : ℕ
  pub write_timeout : ℕ
  pub request_timeout : ℕ
  pub ping_interval : ℕ
  pub logger : Option ℕ

pub record ConnectionOptions : Type 0 where
  pub server : Bytes
  pub mode : ℕ
  pub pool_cfg : PoolConfig
  pub written : Bytes
  pub calculated : Bool

pub data ConnectionOption : Type 0 where
  with_timeout : ℕ → ℕ → ConnectionOption
  with_intervals : ℕ → ℕ → ℕ → ConnectionOption
  with_pool_size : ℕ → ConnectionOption
  with_pool_logger : ℕ → Option Bytes → ConnectionOption

-- In nanoseconds.
abbrev pub default_config : PoolConfig
default_config = record {
  size = 1;
  connect_timeout = 20000000;
  dial_timeout = 20000000;
  redial_interval = 50000000;
  max_redial_interval = 50000000;
  write_timeout = 20000000;
  request_timeout = 20000000;
  ping_interval = 1000000000;
  logger = none;
}

abbrev pub int64_bytes : ℕ → Bytes
int64_bytes v = pack_uint64 [] v mode_default

-- What is to be written is none when binary.Write refuses a part of it.
unfoldable pub update_hash : ConnectionOptions → Option Bytes → Result OptionError ConnectionOptions
update_hash o d =
    if o.calculated
    then err calculated_before
    else elim d [ none ↦ err not_written | some bs ↦ ok (record o { written = o.written ++ bs }) ]

-- The field that an option sets, without the hash.
unfoldable pub configured : ConnectionOption → PoolConfig → PoolConfig
configured (with_timeout request connection) c = record c {
  connect_timeout = connection;
  dial_timeout = connection;
  write_timeout = request;
  request_timeout = request;
}
configured (with_intervals redial max ping) c = record c {
  redial_interval = redial;
  max_redial_interval = max;
  ping_interval = ping;
}
configured (with_pool_size size) c = record c { size = size }
configured (with_pool_logger l d) c = record c { logger = some l }

-- What an option writes to the hash.
unfoldable pub hashed : ConnectionOption → Option Bytes
hashed (with_timeout request connection) =
    some (b'T' ∷ (int64_bytes request ++ int64_bytes connection))
hashed (with_intervals redial max ping) =
    some (b'I' ∷ (int64_bytes redial ++ (int64_bytes max ++ int64_bytes ping)))
hashed (with_pool_size size) = some (b's' ∷ int64_bytes size)
hashed (with_pool_logger l none) = none
hashed (with_pool_logger l (some d)) = some (b'L' ∷ d)

unfoldable pub apply_option :
    ConnectionOptions → ConnectionOption → Result OptionError ConnectionOptions
apply_option o opt = update_hash (record o { pool_cfg = configured opt o.pool_cfg }) (hashed opt)

unfoldable pub apply_all :
    ConnectionOptions → List ConnectionOption → Result OptionError ConnectionOptions
apply_all o [] = ok o
apply_all o (opt ∷ opts) = do o' ← apply_option o opt; apply_all o' opts

unfoldable pub new_options :
    Bytes → ℕ → List ConnectionOption → Result OptionError ConnectionOptions
new_options [] mode opts = err empty_server
new_options (c ∷ cs) mode opts = do
  o ←
      apply_all
        (record {
          server = c ∷ cs;
          mode = mode;
          pool_cfg = default_config;
          written = [];
          calculated = false;
        })
        opts
  update_hash o (some (b'S' ∷ c ∷ cs))

-- The hash is the parameter `sum`; after this no option can be applied.
unfoldable pub get_connection_id : (Bytes → Bytes) → ConnectionOptions → ConnectionOptions × Bytes
get_connection_id sum o = (record o { calculated = true }, sum o.written)
