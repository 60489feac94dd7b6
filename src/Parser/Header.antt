-- ===== src/Parser/Header.antt =====
-- The host and program of a message, the second half of log_msg_parse.
use indigo.Prelude.{
  ℕ, zero, suc, Bool, false, not, ◌&&◌, ◌||◌, Option, none, some, List, [], ◌∷◌, ◌==◌, leb,
  if◌then◌else◌, length, drop, is_empty,
}
use indigo.Prelude.Bytes.{codes, isdigit, starts_with}
use indigo.Parser.{skip_spaces, span_until}

abbrev pub aix_fwd_string : List ℕ
aix_fwd_string = codes "Message forwarded from "

abbrev pub repeat_msg_string : List ℕ
repeat_msg_string = codes "last message repeated"

-- what ends a host name or a program name
abbrev pub ends_name : ℕ → Bool
ends_name c = c == b' ' || (c == b':' || c == b'[')

-- the bytes that LP_CHECK_HOSTNAME allows
abbrev pub is_host_byte : ℕ → Bool
is_host_byte c =
    (leb b'A' c && leb c b'Z')
    || ((leb b'a' c && leb c b'z')
        || (isdigit c
            || (c == b'-'
                || (c == b'_' || (c == b'.' || (c == b':' || (c == b'@' || c == b'/')))))))

-- the loop that fills `hostname_buf`, of 255 bytes and a NUL: what it took and what is left
unfoldable pub span_host : (check : Bool) → (room : ℕ) → List ℕ → List ℕ × List ℕ
span_host check zero cs = ([], cs)
span_host check (suc room) [] = ([], [])
span_host check (suc room) (c ∷ cs) =
    let (taken, rest) = span_host check room cs in
    if ends_name c || (check && not (is_host_byte c)) then ([], c ∷ cs) else (c ∷ taken, rest)

abbrev pub starts_space : List ℕ → Bool
starts_space [] = false
starts_space (c ∷ cs) = c == b' '

-- the separators behind the host of an AIX forwarder
pub skip_separators : List ℕ → List ℕ
skip_separators [] = []
skip_separators (c ∷ cs) =
    let rest = skip_separators cs in if c == b' ' || c == b':' then rest else c ∷ cs

-- the host of an AIX syslogd that forwards, and what follows
unfoldable pub read_aix : List ℕ → Option (List ℕ) × List ℕ
unfolding span_until skip_separators
read_aix src =
    if starts_with aix_fwd_string src
    then (let (host, rest) = span_until (λ c. c == b':') (drop (length aix_fwd_string) src) in
        (some host, skip_separators rest))
    else (none, src)

-- "last message repeated", with a byte behind it
abbrev pub is_repeat : List ℕ → Bool
is_repeat src =
    leb (suc (length repeat_msg_string)) (length src) && starts_with repeat_msg_string src

-- the name of a program, if something follows it
unfoldable pub read_program : List ℕ → Option (List ℕ)
unfolding span_until
read_program src =
    let (name, rest) = span_until ends_name src in if is_empty rest then none else some name

-- What is read: the host and program, if they are set, and the text of the message.
pub record Header : Type 0 where
  pub host : Option (List ℕ)
  pub program : Option (List ℕ)
  pub text : List ℕ

module _ (check : Bool) (is_bad_hostname : List ℕ → Bool) where
  -- a host name of a syslog-ng: a space follows, and the regular expression does not match
  unfoldable pub read_host : List ℕ → Option (List ℕ × List ℕ)
  unfolding span_host
  read_host src =
      let (name, rest) = span_host check 255 src in
      if starts_space rest && not (is_bad_hostname name) then some (name, rest) else none

  -- a regular message: its host, else that of the forwarder, and the program
  unfoldable pub read_names : Option (List ℕ) → List ℕ → Header
  unfolding read_host read_program skip_spaces
  read_names forwarded src = elim (read_host src) [
    | some (name, rest) ↦
        let text = skip_spaces rest in
        record { host = some name; program = read_program text; text = text }
    | none ↦
        let text = skip_spaces src in
        record { host = forwarded; program = read_program text; text = text }
  ]

  -- what follows a date
  unfoldable pub read_header : List ℕ → Header
  unfolding read_aix read_names skip_spaces
  read_header src =
      let (forwarded, rest) = read_aix (skip_spaces src) in
      if is_repeat rest
      then record { host = forwarded; program = none; text = rest }
      else read_names forwarded rest
