-- ===== src/Macros/Tests.antt =====
-- The text of a message in a literal, and names of macros.
use indigo.Prelude.{
  ℕ, ◌≡◌, ap, refl, some, none, true, false, Option, List, [], ◌∷◌, ◌++◌, ◌==◌, inr,
}
use indigo.Prelude.Bytes.{codes}
use indigo.Prelude.Int.{pos, negsuc}
use indigo.Message.{LogStamp, LogMessage}
use indigo.Stamp.{Tm, TimeLib, fmt_bsd}
use indigo.Macros.Table.{log_macro_lookup, macro_of_id}
use indigo.Macros.Quoted.{text, read_literal}
use indigo.Macros.Expand.{Extra, MacroArgs, macro_text, log_macro_expand}
use indigo.Macros.Escaped.{TextOf, log_macro_expand-read_literal}
use indigo.Macros.Statements.{log_template_format-read_literal}
use indigo.Template.{LogTemplateElem, brace_macro, log_template_compile, log_template_format}
use indigo.Template.Print.{print}

abbrev midnight : Tm
midnight = record {
  tm_sec = 0;
  tm_min = 0;
  tm_hour = pos 0;
  tm_mday = 1;
  tm_mon = 0;
  tm_year = pos 108;
  tm_isdst = pos 0;
  tm_gmtoff = pos 3600;
}

abbrev still : TimeLib
still = record {
  gmtime = λ t. some midnight;
  localtime = λ t. midnight;
  mktime = λ tm. (pos 1000, pos 0);
  strftime = λ f tm. codes "Jan  1 00:00:00";
  strptime = λ f text tm. (tm, none);
}

abbrev a_stamp : LogStamp
a_stamp = record { tv_sec = pos 5; tv_usec = pos 0; zone_offset = negsuc 0 }

abbrev message : LogMessage
message = record {
  internal = false;
  local = false;
  mark = false;
  pri = 22;
  stamp = a_stamp;
  recvd = a_stamp;
  date = [];
  host = codes "me@bzorp/net";
  program = codes "su";
  msg = codes "su[12]: 'x'";
}

abbrev extra : Extra
extra = record { re_matches = []; host_from = []; ip = none }

abbrev args : MacroArgs
args = record {
  escape_result = true;
  stamp_recvd = false;
  ts_format = fmt_bsd;
  zone_offset = negsuc 0;
  frac_digits = 0;
}

expands :
    (log_macro_expand still args (log_macro_lookup (codes "FACILITY")) message extra
      ≡ some (codes "mail"))
    × (log_macro_expand still args (log_macro_lookup (codes "TAG")) message extra
        ≡ some (codes "16"))
    × (log_macro_expand still args (log_macro_lookup (codes "S_MONTH")) message extra
        ≡ some (codes "01"))
    × (log_macro_expand still args (log_macro_lookup (codes "TZ")) message extra
        ≡ some (codes "+01:00"))
    × (log_macro_expand still args (log_macro_lookup (codes "HOST")) message extra
        ≡ some (codes "bzorp"))
    × (log_macro_expand still args (log_macro_lookup (codes "PID")) message extra
        ≡ some (codes "12"))
    × (log_macro_expand still args (log_macro_lookup (codes "MSGONLY")) message extra
        ≡ some (codes "\\'x\\'"))
unfolding log_macro_expand log_macro_lookup
expands = (refl, refl, refl, refl, refl, refl, refl)

text_TextOf : TextOf 58 message extra (codes "su[12]: 'x'")
unfolding TextOf macro_of_id macro_text
text_TextOf = inr (refl, refl)

log_macro_expand-read_literal_example :
    (log_macro_expand still (record args { escape_result = false }) 58 message extra
      ≡ some (codes "su[12]: 'x'"))
    × ((out : List ℕ) × ((log_macro_expand still
              (record args { escape_result = true })
              58
              message
              extra
            ≡ some out)
          × (read_literal 39 text (out ++ 39 ∷ codes ", 1")
              ≡ some (codes "su[12]: 'x'", codes ", 1"))))
log_macro_expand-read_literal_example =
    log_macro_expand-read_literal still args 58 message extra (codes "su[12]: 'x'") text_TextOf 39
      (codes ", 1") refl

abbrev or_empty : Option (List ℕ) → List ℕ
or_empty none = []
or_empty (some out) = out

abbrev expand : ℕ → List ℕ
expand id =
    or_empty (log_macro_expand still (record args { escape_result = true }) id message extra)

known_msg : (brace_macro log_macro_lookup (codes "MSG") == 0) ≡ false
unfolding brace_macro log_macro_lookup indigo.Parser.span_until
known_msg = refl

msg_TextOf : TextOf (brace_macro log_macro_lookup (codes "MSG")) message extra (codes "su[12]: 'x'")
unfolding brace_macro log_macro_lookup TextOf macro_of_id macro_text
msg_TextOf = inr (refl, refl)

log_template_format-read_literal_example :
    (elems : List LogTemplateElem) × (log_template_compile log_macro_lookup
        (print ((codes "VALUES (" ++ 39 ∷ [], codes "MSG") ∷ []) (39 ∷ codes ")"))
      ≡ some elems)
    × ((literal : List ℕ) × (log_template_format expand elems
          ≡ (codes "VALUES (" ++ 39 ∷ []) ++ literal)
        × (read_literal 39 text literal ≡ some (codes "su[12]: 'x'", codes ")")))
log_template_format-read_literal_example =
    log_template_format-read_literal still args message extra expand (λ id out e. ap or_empty e)
      (codes "VALUES (") (codes "MSG") (codes ")") (codes "su[12]: 'x'") 39 refl
      (refl, (refl, (refl, (refl, (refl, (refl, (refl, (refl, (refl, tt)))))))))
      (refl, (refl, (refl, tt))) (refl, (refl, tt)) known_msg msg_TextOf
