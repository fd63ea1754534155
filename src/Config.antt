-- ===== src/Config.antt =====
-- config/config_helpers.h, and the configurations that read themselves with it: logger/logger_config.h,
-- event_loop/tcp_listener_config.h, order_forge/order_book_config.h and
-- applications/order_forge_app/order_forge_app_config.h. `none` is an exception.
use Prim.Native.String.{String}
use order_forge_matching_eng.Common.{
  ℕ, Bool, true, if◌then◌else◌, Option, none, some, ◌>>=◌, List, [], ◌∷◌,
}
use order_forge_matching_eng.Common.Int.{ℤ, pos}
use order_forge_matching_eng.ScaledInt.{Price}
use order_forge_matching_eng.EventHandler.{ConnectionType, undefined}
use order_forge_matching_eng.JsonLibrary.{JsonLibrary, Scaling}

pub record LoggerConfig : Type 0 where
  pub write_std_out : Bool
  pub write_log_file : Bool
  pub log_file_path : String
  pub mem_block_size_mb : ℕ
  pub number_blocks : ℕ

abbrev pub get_default_logger_config : LoggerConfig
get_default_logger_config = record {
  write_std_out = true;
  write_log_file = true;
  log_file_path = "./log.txt";
  mem_block_size_mb = 20;
  number_blocks = 5;
}

-- `none` as the connection type is the indeterminate value of a member that nothing initialises, as in
-- `TCPListenerConfig config;`. In `TCPListenerConfig{}` it is 0.
pub record TcpListenerConfig : Type 0 where
  pub port : ℤ
  pub connection_type : Option ConnectionType

pub record OrderBookConfig : Type 0 where
  pub symbol : String
  pub tick_size : Price

pub record OrderForgeAppConfig : Type 0 where
  pub app_id : String
  pub logger_config : LoggerConfig
  pub listener_configs : List TcpListenerConfig
  pub order_book_configs : List OrderBookConfig

module _ (J : JsonLibrary) where
  -- `set_config(j, field_name, config_field)`, which returns the field.
  unfoldable pub set_config :
      {T : Type 0} → (get : J.Json → Option T) → J.Json → String → T → Option T
  set_config get j field_name config_field =
      if J.contains field_name j then (do v ← J.at field_name j; get v) else some config_field

  unfoldable pub parse_enum_config :
      {T : Type 0}
      → (enum_cast : String → Option T) → J.Json
      → String
      → Option T
      → Option (Option T)
  parse_enum_config enum_cast j field_name config_field =
      if J.contains field_name j
      then (do
        v ← J.at field_name j
        config_str ← J.get_string v
        some (elim (enum_cast config_str) [ none ↦ config_field | some e ↦ some e ]))
      else some config_field

  -- `set_config<T>(j, field_name)`, with `T{}` as the default.
  unfoldable pub set_object :
      {T : Type 0} → (from_json : J.Json → Option T) → T → J.Json → String → Option T
  set_object from_json default j field_name =
      if J.contains field_name j then (do v ← J.at field_name j; from_json v) else some default

  unfoldable pub from_all :
      {T : Type 0} → (from_json : J.Json → Option T) → List J.Json → Option (List T)
  from_all from_json [] = some []
  from_all from_json (r ∷ rs) = do
    config ← from_json r
    configs ← from_all from_json rs
    some (config ∷ configs)

  unfoldable pub set_configs :
      {T : Type 0} → (from_json : J.Json → Option T) → T → J.Json → String → Option (List T)
  set_configs from_json default j field_name =
      if J.contains field_name j
      then (do v ← J.at field_name j; from_all from_json (J.elements v))
      else some (default ∷ [])

  unfoldable pub logger_config : J.Json → Option LoggerConfig
  logger_config j = do
    let config = get_default_logger_config
    write_std_out ← set_config J.get_bool j "write_std_out" config.write_std_out
    log_file_path ← set_config J.get_string j "log_file_path" config.log_file_path
    mem_block_size_mb ← set_config J.get_uint64 j "mem_block_size" config.mem_block_size_mb
    number_blocks ← set_config J.get_uint64 j "number_blocks" config.number_blocks
    some (record config {
      write_std_out = write_std_out;
      log_file_path = log_file_path;
      mem_block_size_mb = mem_block_size_mb;
      number_blocks = number_blocks;
    })

  module _ (S : Scaling J.Double) (connection_cast : String → Option ConnectionType) where
    unfoldable pub tcp_listener_config : J.Json → Option TcpListenerConfig
    tcp_listener_config j = do
      port ← set_config J.get_int j "port" (pos 0)
      connection_type ← parse_enum_config connection_cast j "type" none
      some (record { port = port; connection_type = connection_type })

    unfoldable pub order_book_config : J.Json → Option OrderBookConfig
    order_book_config j = do
      symbol ← set_config J.get_string j "symbol" "test_symbol"
      temp_tick_size ← set_config J.get_double j "tick_size" S.zero_double
      some (record { symbol = symbol; tick_size = S.scale_price temp_tick_size })

    -- `tick_size{0.1}` is an argument.
    unfoldable pub order_forge_app_config :
        (default_tick_size : Price) → J.Json → Option OrderForgeAppConfig
    order_forge_app_config default_tick_size j = do
      app_id ← set_config J.get_string j "app_id" "no id"
      logger ← set_object logger_config get_default_logger_config j "logger_config"
      listeners ←
          set_configs tcp_listener_config
            (record { port = pos 0; connection_type = some undefined }) j "tcp_listeners"
      books ←
          set_configs order_book_config
            (record { symbol = "test_symbol"; tick_size = default_tick_size }) j
            "order_book_configs"
      some (record {
        app_id = app_id;
        logger_config = logger;
        listener_configs = listeners;
        order_book_configs = books;
      })

    -- `none` as the text of the file: it could not be opened.
    unfoldable pub read_config_file :
        (default_tick_size : Price) → Option String → Option OrderForgeAppConfig
    read_config_file default_tick_size file = do
      buffer ← file
      j ← J.parse buffer
      order_forge_app_config default_tick_size j
