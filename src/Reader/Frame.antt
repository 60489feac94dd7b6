-- ===== src/Reader/Frame.antt =====
-- The cutting of lines by src/logreader.c against a machine that takes one byte at a time.
use indigo.Prelude.{
  ℕ, zero, suc, ◌+◌, ◌≤◌, ◌<◌, ◌≡◌, ◌⊎◌, inl, inr, refl, sym, ap, ◌∙◌, Bool, true, false, ◌&&◌,
  Option, none, some, List, [], ◌∷◌, ◌++◌, append-nil, append_assoc, arith, ◌==◌, if◌then◌else◌,
  length, take, drop, length-drop, Option-cases, Bool-cases,
}
use indigo.Message.{ParseFlags}
use indigo.Reader.{
  LogReaderOptions, memchr, find_eol, trim_end, Pipe, handle_nonempty, log_reader_handle_line,
  within_limit, cut_lines,
}

pub memchr-lt : (c : ℕ) (xs : List ℕ) (i : ℕ) → memchr c xs ≡ some i → i < length xs
unfolding memchr
memchr-lt c [] i h = cc
memchr-lt c (x ∷ xs) i h = elim (Option-cases (memchr c xs)) [
  | inl e ↦ ground arith
  | inr (j, e) ↦ ground (arith, memchr-lt c xs j e)
]

memchr-cons_none :
    (k c : ℕ) (cs : List ℕ) → memchr k (c ∷ cs) ≡ none → ((c == k) ≡ false) × (memchr k cs ≡ none)
unfolding memchr
memchr-cons_none k c cs h = elim (Option-cases (memchr k cs)) [
  | inl e ↦ (ground arith, e)
  | inr (j, e) ↦ absurd (ground arith)
]

memchr-cons_some :
    (k c : ℕ) (cs : List ℕ) (i : ℕ)
    → memchr k (c ∷ cs) ≡ some i
    → (((c == k) ≡ true) × (i ≡ 0))
      ⊎ (((c == k) ≡ false) × ((j : ℕ) × (i ≡ suc j) × (memchr k cs ≡ some j)))
unfolding memchr
memchr-cons_some k c cs i h = elim (Bool-cases (c == k)) [
  | inl e ↦ inl (e, ground arith)
  | inr e ↦ elim (Option-cases (memchr k cs)) [
    | inl n ↦ absurd (ground arith)
    | inr (j, m) ↦ inr (e, (j, ground arith, m))
  ]
]

pub memchr-append_none :
    (k : ℕ) (xs ys : List ℕ) → memchr k xs ≡ none → memchr k ys ≡ none → memchr k (xs ++ ys) ≡ none
unfolding memchr
memchr-append_none k [] ys h g = g
memchr-append_none k (x ∷ xs) ys h g =
    let (e, rest) = memchr-cons_none k x xs h in rw (e, memchr-append_none k xs ys rest g)

-- no NUL among the bytes
abbrev pub NoNul : List ℕ → Type 0
NoNul xs = memchr 0 xs ≡ none

NoNul-drop : (n : ℕ) (xs : List ℕ) → NoNul xs → NoNul (drop n xs)
unfolding memchr
NoNul-drop zero xs h = h
NoNul-drop (suc n) [] h = h
NoNul-drop (suc n) (x ∷ xs) h = NoNul-drop n xs (ground arith)

find_eol-memchr : (xs : List ℕ) → NoNul xs → find_eol xs ≡ memchr 10 xs
unfolding find_eol
find_eol-memchr xs h = ground arith

-- the newlines in a buffer
unfoldable pub newlines : List ℕ → ℕ
newlines [] = 0
newlines (x ∷ xs) = let rest = newlines xs in if x == 10 then suc rest else rest

memchr-tail :
    (x : ℕ) (xs : List ℕ) (i : ℕ)
    → (x == 10) ≡ false
    → memchr 10 (x ∷ xs) ≡ some (suc i)
    → memchr 10 xs ≡ some i
unfolding memchr
memchr-tail x xs i miss e = elim (Option-cases (memchr 10 xs)) [
  | inl none_left ↦ absurd (ground arith)
  | inr (j, found) ↦ ground arith
]

newlines-memchr :
    (xs : List ℕ) (i : ℕ) → memchr 10 xs ≡ some i → newlines xs ≡ suc (newlines (drop (suc i) xs))
unfolding newlines memchr
newlines-memchr [] i e = absurd (ground arith)
newlines-memchr (x ∷ xs) zero e = elim (Bool-cases (x == 10)) [
  | inl hit ↦ rw hit refl
  | inr miss ↦ elim (Option-cases (memchr 10 xs)) [
    | inl none_left ↦ absurd (ground arith)
    | inr (j, found) ↦ absurd (ground arith)
  ]
]
newlines-memchr (x ∷ xs) (suc i) e = elim (Bool-cases (x == 10)) [
  | inl hit ↦ absurd (ground arith)
  | inr miss ↦ rw miss (newlines-memchr xs i (memchr-tail x xs i miss e))
]

-- as many messages more as there are lines are within the fetch limit
abbrev pub HasBudget : LogReaderOptions → ℕ → List ℕ → Type 0
HasBudget o msg_count rest = (o.fetch_limit ≡ 0) ⊎ (msg_count + newlines rest ≤ o.fetch_limit)

module _ {A W : Type 0} (pipe : Pipe A W) (o : LogReaderOptions) (pf : ParseFlags)
    (sa : Option A) where
  -- a line is handed over, without its terminators and if anything is left
  pub deliver : W → List ℕ → W
  deliver w line = (handle_nonempty pipe o pf sa w true (trim_end line)).0

  -- one byte: a newline ends the line, any other byte is added to it
  pub push_byte : List ℕ × W → ℕ → List ℕ × W
  unfolding deliver
  push_byte (line, w) c = if c == 10 then ([], deliver w line) else (line ++ c ∷ [], w)

  unfoldable pub feed : List ℕ × W → List ℕ → List ℕ × W
  unfolding push_byte
  feed st [] = st
  feed st (c ∷ cs) = feed (push_byte st c) cs

  pub feed-append : (st : List ℕ × W) (xs ys : List ℕ) → feed st (xs ++ ys) ≡ feed (feed st xs) ys
  unfolding feed
  feed-append st [] ys = refl
  feed-append st (c ∷ cs) ys = feed-append (push_byte st c) cs ys

  pub feed_open :
      (line : List ℕ) (w : W) (xs : List ℕ)
      → memchr 10 xs ≡ none
      → feed (line, w) xs ≡ (line ++ xs, w)
  unfolding feed memchr
  feed_open line w [] h = ap (λ l. (l, w)) (sym (append-nil line))
  feed_open line w (c ∷ cs) h =
      let (e, rest) = memchr-cons_none 10 c cs h in
      rw e (feed_open (line ++ c ∷ []) w cs rest ∙ ap (λ l. (l, w)) (append_assoc line (c ∷ []) cs))

  feed_line :
      (line : List ℕ) (w : W) (xs : List ℕ) (i : ℕ)
      → memchr 10 xs ≡ some i
      → feed (line, w) xs ≡ feed ([], deliver w (line ++ take i xs)) (drop (suc i) xs)
  unfolding feed memchr
  feed_line line w [] i h = cc
  feed_line line w (c ∷ cs) i h = elim (memchr-cons_some 10 c cs i h) [
    | inl (e, z) ↦ rw (z, e, append-nil line)
    | inr (e, (j, z, m)) ↦
        rw (z, e)
          (feed_line (line ++ c ∷ []) w cs j m
            ∙ ap (λ l. feed ([], deliver w l) (drop (suc j) cs))
                (append_assoc line (c ∷ []) (take j cs)))
  ]

  pub feed-newline :
      (line : List ℕ) (w : W) (c : ℕ) (cs : List ℕ)
      → (c == 10) ≡ true
      → feed (line, w) (c ∷ cs) ≡ feed ([], deliver w line) cs
  unfolding feed
  feed-newline line w c cs e = rw e

  pub feed-other :
      (line : List ℕ) (w : W) (c : ℕ) (cs : List ℕ)
      → (c == 10) ≡ false
      → feed (line, w) (c ∷ cs) ≡ feed (line ++ c ∷ [], w) cs
  unfolding feed
  feed-other line w c cs e = rw e

  -- the open line of the machine has no newline, and no NUL if none comes
  pub feed-keeps :
      (line : List ℕ) (w : W) (xs : List ℕ)
      → memchr 10 line ≡ none
      → NoNul line
      → NoNul xs
      → (memchr 10 (feed (line, w) xs).0 ≡ none) × NoNul (feed (line, w) xs).0
  unfolding feed
  feed-keeps line w [] h n m = (h, n)
  feed-keeps line w (c ∷ cs) h n m =
      let (z, ms) = memchr-cons_none 0 c cs m in
      elim (Bool-cases (c == 10)) [
        | inl e ↦
            rw (feed-newline line w c cs e)
              (feed-keeps [] (deliver w line) cs (unfold memchr in refl) (unfold memchr in refl) ms)
        | inr e ↦ rw (feed-other line w c cs e) (
            feed-keeps (line ++ c ∷ []) w cs
              (memchr-append_none 10 line (c ∷ []) h (unfold memchr in ground arith))
              (memchr-append_none 0 line (c ∷ []) n (unfold memchr in ground arith)) ms)
      ]

  module _ (fuel : ℕ) (rest : List ℕ) (msg_count : ℕ) (may_read : Bool) (w : W) where
    pub cut_lines-none :
        find_eol rest ≡ none
        → cut_lines pipe o pf sa (suc fuel) rest msg_count may_read w
          ≡ record { rest = rest; msg_count = msg_count; world = w }
    unfolding cut_lines
    cut_lines-none e = rw (e, cut_lines)

    pub cut_lines-stop :
        (i : ℕ)
        → find_eol rest ≡ some i
        → (within_limit pipe o msg_count && may_read) ≡ false
        → cut_lines pipe o pf sa (suc fuel) rest msg_count may_read w
          ≡ record { rest = rest; msg_count = msg_count; world = w }
    unfolding cut_lines
    cut_lines-stop i e b = rw (e, b, cut_lines)

    pub cut_lines-some :
        (i : ℕ)
        → find_eol rest ≡ some i
        → (within_limit pipe o msg_count && may_read) ≡ true
        → cut_lines pipe o pf sa (suc fuel) rest msg_count may_read w ≡ (
            let h = handle_nonempty pipe o pf sa w may_read (trim_end (take i rest)) in
            cut_lines pipe o pf sa fuel (drop (suc i) rest) (msg_count + 1) h.1 h.0)
    unfolding cut_lines
    cut_lines-some i e b = rw (e, b, cut_lines)

  module _ (open_pipe : (w : W) → pipe.free_to_send w ≡ true) where
    handle_open : (w : W) (line : List ℕ) → (handle_nonempty pipe o pf sa w true line).1 ≡ true
    unfolding handle_nonempty log_reader_handle_line
    handle_open w [] = refl
    handle_open w (c ∷ cs) = open_pipe _

    pub cut_lines-feed :
        (fuel : ℕ) (rest : List ℕ) (msg_count : ℕ) (w : W)
        → length rest ≤ fuel
        → NoNul rest
        → HasBudget o msg_count rest
        → let c = cut_lines pipe o pf sa fuel rest msg_count true w in
          ◌≡◌ {A = List ℕ × W} (c.rest, c.world) (feed ([], w) rest)
    unfolding cut_lines deliver feed
    cut_lines-feed zero [] msg_count w f n b = unfold feed in refl
    cut_lines-feed zero (c ∷ cs) msg_count w f n b = absurd (omega arith)
    cut_lines-feed (suc fuel) rest msg_count w f n b = elim (Option-cases (memchr 10 rest)) [
      | inl e ↦
          rw (cut_lines-none fuel rest msg_count true w (find_eol-memchr rest n ∙ e))
            (sym (feed_open [] w rest e))
      | inr (i, e) ↦
          let lt = memchr-lt 10 rest i e in
          let counted = newlines-memchr rest i e in
          let room : (within_limit pipe o msg_count && true) ≡ true = ground arith in
          let line = trim_end (take i rest) in
          let same = length-drop (suc i) rest in
          let w' = (handle_nonempty pipe o pf sa w true line).0 in
          let left : HasBudget o (msg_count + 1) (drop (suc i) rest) = ground arith in
          rw
            (
              cut_lines-some fuel rest msg_count true w i (find_eol-memchr rest n ∙ e) room,
              handle_open w line,
            )
            (cut_lines-feed fuel (drop (suc i) rest) (msg_count + 1) w' (omega arith)
                (NoNul-drop (suc i) rest n) left
              ∙ sym (feed_line [] w rest i e))
    ]
