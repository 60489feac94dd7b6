-- ===== src/Reader/Options.antt =====
-- src/logreader.c and src/logsource.c, the options of a reader: -1 stands for what the configuration
-- says.
use indigo.Prelude.{Bool, false, ◌||◌, ◌&&◌, Option, List, ℕ, if◌then◌else◌, not}
use indigo.Reader.{LogReaderOptions}
use indigo.Prelude.Int.{pos_part, ℤ, pos, negsuc, eqb_ℤ, ltb_ℤ}

-- what the options take from GlobalConfig
pub record GlobalConfig : Type 0 where
  pub log_iw_size : ℤ
  pub log_fetch_limit : ℤ
  pub log_msg_size : ℤ
  pub follow_freq : ℤ
  pub recv_zone_offset : ℤ
  pub keep_timestamp : ℤ
  pub check_hostname : Bool
  pub bad_hostname_compiled : Bool

-- LogReaderOptions as the configuration file leaves it, with its LogSourceOptions and the LRO_*
-- bits; `bad_hostname` is whether there is a pattern
pub record RawOptions : Type 0 where
  pub init_window_size : ℤ
  pub window_size : ℤ
  pub noparse : Bool
  pub check_hostname : Bool
  pub kernel : Bool
  pub padding : ℤ
  pub prefix : Option (List ℕ)
  pub msg_size : ℤ
  pub follow_filename : Option (List ℕ)
  pub follow_freq : ℤ
  pub fetch_limit : ℤ
  pub zone_offset : ℤ
  pub keep_timestamp : ℤ
  pub bad_hostname : Bool

-- log_source_options_defaults
pub log_source_options_defaults : RawOptions → RawOptions
log_source_options_defaults o = record o { init_window_size = negsuc 0; window_size = negsuc 0 }

-- log_reader_options_defaults
unfoldable pub log_reader_options_defaults : RawOptions → RawOptions
unfolding log_source_options_defaults
log_reader_options_defaults o = record (log_source_options_defaults o) {
  padding = pos 0;
  noparse = false;
  check_hostname = false;
  kernel = false;
  fetch_limit = negsuc 0;
  msg_size = negsuc 0;
  follow_freq = negsuc 0;
  zone_offset = negsuc 0;
  keep_timestamp = negsuc 0;
  bad_hostname = false;
}

-- an option, or what the configuration says where it is -1
unfoldable pub default : ℤ → ℤ → ℤ
default option value = if eqb_ℤ option (negsuc 0) then value else option

-- log_source_options_init
pub log_source_options_init : RawOptions → GlobalConfig → RawOptions
unfolding default
log_source_options_init o cfg =
    let size = default o.init_window_size cfg.log_iw_size in
    record o { init_window_size = size; window_size = size }

-- log_reader_options_init
unfoldable pub log_reader_options_init : RawOptions → GlobalConfig → RawOptions
unfolding log_source_options_init default
log_reader_options_init o cfg = record (log_source_options_init o cfg) {
  fetch_limit = default o.fetch_limit cfg.log_fetch_limit;
  msg_size = default o.msg_size cfg.log_msg_size;
  follow_freq = default o.follow_freq cfg.follow_freq;
  zone_offset = default o.zone_offset cfg.recv_zone_offset;
  keep_timestamp = default o.keep_timestamp cfg.keep_timestamp;
  check_hostname = o.check_hostname || cfg.check_hostname;
  bad_hostname = o.bad_hostname || cfg.bad_hostname_compiled;
}

-- the test of log_reader_init
unfoldable pub is_buffer_too_small : RawOptions → Bool
is_buffer_too_small o = not (eqb_ℤ o.padding (pos 0)) && ltb_ℤ o.msg_size o.padding

-- LogReaderOptions as a reader uses them once they are initialised
unfoldable pub options_of : RawOptions → LogReaderOptions
options_of o = record {
  noparse = o.noparse;
  check_hostname = o.check_hostname;
  kernel = o.kernel;
  padding = pos_part o.padding;
  prefix = o.prefix;
  msg_size = pos_part o.msg_size;
  fetch_limit = pos_part o.fetch_limit;
  zone_offset = o.zone_offset;
  keep_timestamp = not (eqb_ℤ o.keep_timestamp (pos 0));
}
