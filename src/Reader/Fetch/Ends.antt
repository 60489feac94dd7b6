-- ===== src/Reader/Fetch/Ends.antt =====
-- log_reader_fetch_log of src/logreader.c ends: no dispatch reads for ever.
use indigo.Prelude.{
  ℕ, zero, suc, ◌+◌, ◌-◌, ◌*◌, ◌≤◌, ◌<◌, ◌≡◌, ◌⊎◌, inl, inr, refl, ◌∙◌, Bool, true, false, not,
  ◌||◌, Option, none, some, List, [], ◌∷◌, ◌++◌, arith, ltb, length, length-append, is_empty,
  Bool-cases, if◌then◌else◌,
}
use indigo.Reader.{
  LogReaderOptions, LogReader, Pipe, Iterated, takes_all, iterate_all, iterate_lines,
  log_reader_iterate_buf,
}
use indigo.Reader.Bounds.{log_reader_iterate_buf-IsBounded}
use indigo.Reader.Fetch.{
  ReadResult, bytes, again, failed, Fetched, Round, finish, go_on, fetched, is_eof, is_short, room,
  take_in, after_read, fetch_loop, enough_fuel, log_reader_fetch_log,
}

-- read(2) and recvfrom(2) give no more bytes than they are asked for.
abbrev pub ReadBound : {A R : Type 0} → (R → ℕ → ReadResult A × R) → Type 0
ReadBound {A} {R} read =
    (r : R) (n : ℕ) (bs : List ℕ) (sa : Option A) → (read r n).0 ≡ bytes bs sa → length bs ≤ n

-- A reader that log_reader_new and its callers set up, unpadded: a followed file is read once in
-- a dispatch (LR_NOMREAD).
pub record IsReady {A : Type 0} (o : LogReaderOptions) (s : LogReader A) : Type 0 where
  pub unpadded : o.padding ≡ 0
  pub follows_once : (s.nomread ≡ true) ⊎ (s.follow ≡ false)
  pub in_buffer : length s.buffer ≤ o.msg_size

not_eof :
    {A : Type 0} (s : LogReader A) (bs : List ℕ)
    → s.follow ≡ false
    → is_eof s bs ≡ false
    → (s.pktterm ≡ true) ⊎ (0 < length bs)
not_eof s [] f e = inl (ground arith)
not_eof s (b ∷ bs) f e = inr (omega arith)

follows : {P : Type 0} (b : Bool) → b ≡ false → (b ≡ true) ⊎ P → P
follows true e h = absurd (ground arith)
follows false e (inl h) = absurd (ground arith)
follows false e (inr p) = p

room_unpadded :
    {A : Type 0} (o : LogReaderOptions) (s : LogReader A)
    → o.padding ≡ 0
    → room o s ≡ o.msg_size - length s.buffer
room_unpadded o s e = ground arith

either :
    {X : Type 0} (b : Bool) {x y : Option X}
    → (v : X) × (x ≡ some v)
    → (v : X) × (y ≡ some v)
    → (v : X) × ((let z : Option X = elim b [ true ↦ x | false ↦ y ] in z) ≡ some v)
either true h k = h
either false h k = k

module _ {A W : Type 0} (pipe : Pipe A W) (o : LogReaderOptions) where
  iterate-flags :
      (s : LogReader A) (sa : Option A) (flush : Bool) (msg_count : ℕ) (w : W)
      → let r = log_reader_iterate_buf pipe o s sa flush msg_count w in
        (r.reader.nomread ≡ s.nomread) × (r.reader.follow ≡ s.follow)
  unfolding log_reader_iterate_buf iterate_all iterate_lines
  iterate-flags s sa flush msg_count w = elim (Bool-cases (takes_all pipe o s flush)) [
    | inl e ↦ rw e (refl, refl)
    | inr e ↦ rw e (refl, refl)
  ]

  iterate-pktterm :
      (s : LogReader A) (sa : Option A) (flush : Bool) (msg_count : ℕ) (w : W)
      → s.pktterm ≡ true
      → (log_reader_iterate_buf pipe o s sa flush msg_count w).msg_count ≡ msg_count + 1
  unfolding log_reader_iterate_buf takes_all iterate_all
  iterate-pktterm s sa flush msg_count w e = ground arith

  -- what is left to do, in rounds
  abbrev pub measure : ℕ → ℕ → ℕ
  measure msg_count len = (o.fetch_limit - msg_count) * suc o.msg_size + (o.msg_size - len)

  measure_count : (m n k l : ℕ) → m < o.fetch_limit → m < n → measure n k < measure m l
  measure_count m n k l a b = grind arith

  measure_len : (m k l : ℕ) → l < k → k ≤ o.msg_size → measure m k < measure m l
  measure_len m k l a b = omega arith

  measure_enough : (m l : ℕ) → measure m l < enough_fuel o
  measure_enough m l = grind arith

  -- the state of the next round, nearer to the end
  record Onward (s : LogReader A) (msg_count : ℕ) (i : Iterated pipe o) : Type 0 where
    nearer : measure i.msg_count (length i.reader.buffer) < measure msg_count (length s.buffer)
    ready : IsReady o i.reader

  Goes : {R : Type 0} → LogReader A → ℕ → Round pipe o R → Type 0
  Goes s msg_count (finish x) = Unit
  Goes s msg_count (go_on i r) = Onward s msg_count i

  take_in-Onward :
      (s : LogReader A) (bs : List ℕ) (sa : Option A) (msg_count : ℕ) (w : W)
      → IsReady o s
      → 0 < o.msg_size
      → msg_count < o.fetch_limit
      → length bs ≤ o.msg_size - length s.buffer
      → (s.pktterm ≡ true) ⊎ (0 < length bs)
      → Onward s msg_count (take_in pipe o s bs sa msg_count w)
  take_in-Onward s bs sa msg_count w h p lt le some_bytes =
      let s' : LogReader A = record s { buffer = s.buffer ++ bs } in
      let r = take_in pipe o s bs sa msg_count w in
      let len = length-append s.buffer bs in
      let full = h.in_buffer in
      let fit : length (s.buffer ++ bs) ≤ o.msg_size = omega arith in
      let b = log_reader_iterate_buf-IsBounded pipe o s' sa false msg_count w p fit in
      let (n, f) = iterate-flags s' sa false msg_count w in
      record {
        nearer = elim b.counted [
          | inl more ↦
              measure_count msg_count r.msg_count (length r.reader.buffer) (length s.buffer) lt more
          | inr (same, buf, x) ↦ elim some_bytes [
            | inl pkt ↦ absurd (omega (arith, iterate-pktterm s' sa false msg_count w pkt))
            | inr pos ↦
                rw (same, buf)
                  (measure_len msg_count (length (s.buffer ++ bs)) (length s.buffer) (omega arith)
                    fit)
          ]
        ];
        ready = record {
          unpadded = h.unpadded;
          follows_once = elim h.follows_once [ inl e ↦ inl (n ∙ e) | inr e ↦ inr (f ∙ e) ];
          in_buffer = (let sh = b.shrinks in omega arith);
        };
      }

  Goes-if :
      {R : Type 0} (s : LogReader A) (msg_count : ℕ) (b : Bool) (x : Fetched A W R)
      (q : Round pipe o R)
      → (b ≡ false → Goes s msg_count q)
      → Goes s msg_count (if b then finish x else q)
  unfolding Goes
  Goes-if s msg_count true x q h = tt
  Goes-if s msg_count false x q h = h refl

  module _ {R : Type 0} (read : R → ℕ → ReadResult A × R) where
    after_read-Goes :
        (s : LogReader A) (msg_count : ℕ) (w : W) (r : R) (rc : ReadResult A)
        → IsReady o s
        → 0 < o.msg_size
        → msg_count < o.fetch_limit
        → ((bs : List ℕ) (sa : Option A)
            → rc ≡ bytes bs sa
            → length bs ≤ o.msg_size - length s.buffer)
        → Goes s msg_count (after_read pipe o read s msg_count w r rc)
    unfolding after_read Goes
    after_read-Goes s msg_count w r again h p lt le = tt
    after_read-Goes s msg_count w r failed h p lt le = tt
    after_read-Goes s msg_count w r (bytes bs sa) h p lt le =
        Goes-if s msg_count (is_eof s bs) _ _ λ e. Goes-if s msg_count (is_short o bs) _ _ λ _.
          Goes-if s msg_count s.nomread _ _ λ more.
            take_in-Onward s bs sa msg_count w h p lt (le bs sa refl)
              (not_eof s bs (follows s.nomread more h.follows_once) e)

    -- a round that is not the last one hands its state on
    resume_total :
        (s : LogReader A) (msg_count : ℕ) (k : Iterated pipe o → R → Option (Fetched A W R))
        (q : Round pipe o R)
        → Goes s msg_count q
        → ((i : Iterated pipe o) (r : R)
            → Onward s msg_count i
            → (x : Fetched A W R) × (k i r ≡ some x))
        → (x : Fetched A W R) × ((let y : Option (Fetched A W R) = elim q [
          | finish x ↦ some x
          | go_on i r ↦ k i r
        ] in
              y)
            ≡ some x)
    unfolding Goes
    resume_total s msg_count k (finish x) g h = (x, refl)
    resume_total s msg_count k (go_on i r) g h = h i r g

    fetch_loop_total :
        ReadBound read
        → 0 < o.msg_size
        → (fuel : ℕ) (s : LogReader A) (msg_count : ℕ) (w : W) (r : R) → IsReady o s
        → measure msg_count (length s.buffer) < fuel
        → (x : Fetched A W R) × (fetch_loop pipe o read fuel s msg_count w r ≡ some x)
    unfolding fetch_loop
    fetch_loop_total rb p zero s msg_count w r h m = absurd (omega arith)
    fetch_loop_total rb p (suc fuel) s msg_count w r h m =
        elim (Bool-cases (ltb msg_count o.fetch_limit)) [
          | inr e ↦ (fetched pipe o read s w r, rw (e, fetch_loop))
          | inl e ↦
              let asked = room_unpadded o s h.unpadded in
              let lt : msg_count < o.fetch_limit = ground arith in
              rw (e, fetch_loop)
                (resume_total s msg_count
                  (λ i r'. fetch_loop pipe o read fuel i.reader i.msg_count i.world r')
                  (after_read pipe o read s msg_count w (read r (room o s)).1 (read r (room o s)).0)
                  (after_read-Goes s msg_count w (read r (room o s)).1 (read r (room o s)).0 h p lt
                    (λ bs sa b. rw asked at (rb r (room o s) bs sa b)))
                  (λ i r' on.
                    let near = on.nearer in
                    fetch_loop_total rb p fuel i.reader i.msg_count i.world r' on.ready
                      (omega arith)))
        ]

    -- log_reader_fetch_log returns, with its fuel, for a descriptor that gives no more bytes than
    -- it is asked for, if `msg_size` is not 0 and the reader is unpadded, has no more than
    -- `msg_size` bytes in its buffer, and either reads once in a dispatch or does not follow.
    pub log_reader_fetch_log_total :
        ReadBound read
        → 0 < o.msg_size
        → (s : LogReader A) (w : W) (r : R) → IsReady o s
        → (x : Fetched A W R) × (log_reader_fetch_log pipe o read s w r ≡ some x)
    unfolding log_reader_fetch_log
    log_reader_fetch_log_total rb p s w r h =
        let i = log_reader_iterate_buf pipe o s none false 0 w in
        let (n, f) = iterate-flags s none false 0 w in
        let b = log_reader_iterate_buf-IsBounded pipe o s none false 0 w p h.in_buffer in
        let ready : IsReady o i.reader = record {
          unpadded = h.unpadded;
          follows_once = elim h.follows_once [ inl e ↦ inl (n ∙ e) | inr e ↦ inr (f ∙ e) ];
          in_buffer = (let sh = b.shrinks in let fit = h.in_buffer in omega arith);
        } in
        either s.complete_line
          (either (not (is_empty i.reader.buffer) || s.nomread)
            (fetched pipe o read i.reader i.world r, refl)
            (fetch_loop_total rb p (enough_fuel o) i.reader i.msg_count i.world r ready
              (measure_enough i.msg_count (length i.reader.buffer))))
          (fetch_loop_total rb p (enough_fuel o) s 0 w r h (measure_enough 0 (length s.buffer)))
