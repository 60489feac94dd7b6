-- ===== src/Groups/Balance.antt =====
-- A message from its source through the center and its groups to drivers, and back.
use indigo.Prelude.{
  ℕ, zero, suc, ◌+◌, ◌^◌, ◌≤◌, ◌<◌, ◌≡◌, refl, ap, ◌∙◌, subst, Bool, true, false, Option, some,
  List, [], ◌∷◌, ◌++◌, ◌==◌, append-nil, is_empty, arith, Bool-cases, inl, inr, length,
  if◌then◌else◌,
}
use indigo.Prelude.Int.{ℤ, pos, ◌-ℤ◌}
use indigo.Ack.{
  Flow, source_msg_ack, center_ack, ◌>>=◌, log_msg_ack, log_msg_ack_block_inc,
  log_msg_ack_block_start, log_source_queue,
}
use indigo.Center.Out.{from_source, acks, settle_all}
use indigo.Center.Settling.{fresh, finished, log_source_queue-fresh, window_restored}
use indigo.Groups.{center_groups, center_flow_groups}
use indigo.Groups.Owed.{IsStack, extra, Owes, ref-Owes, inc-Owes, start-Owes, ack-Owes}
use indigo.Groups.FanOut.{
  later, Gives, settle_all-Owes, Owes-none, Owes-window, Owes-freed, log_dest_group_queue-Gives,
  log_dest_group_queue_off-Gives,
}

module _ {D : Type 0} (now : D → Bool) where
  -- the drivers that are not done at once: those of groups under flow control, and all
  unfoldable pub owed_by : List (List D × Bool) → ℕ
  unfolding later
  owed_by [] = 0
  owed_by ((ds, flow_control) ∷ gs) = (if flow_control then later now ds else 0) + owed_by gs

  unfoldable pub kept_by : List (List D × Bool) → ℕ
  unfolding later
  kept_by [] = 0
  kept_by ((ds, _) ∷ gs) = later now ds + kept_by gs

-- the drivers and the groups
unfoldable pub size : {D : Type 0} → List (List D × Bool) → ℕ
size [] = 0
size ((ds, _) ∷ gs) = length ds + (1 + size gs)

later-le : {D : Type 0} (now : D → Bool) (ds : List D) → later now ds ≤ length ds
unfolding later
later-le now [] = omega arith
later-le now (d ∷ ds) =
    let h = later-le now ds in
    elim (Bool-cases (now d)) [
      | inl done ↦ rw done (omega (arith, h))
      | inr waits ↦ rw waits (omega (arith, h))
    ]

module _ (win : ℤ) (refs : ℕ) where
  Owes-mono : (n n' a r : ℕ) (m : Flow) → n ≤ n' → Owes win refs n a r m → Owes win refs n' a r m
  unfolding Owes
  Owes-mono n n' zero r m l h = h
  Owes-mono n n' (suc a) r m l (bs, (s, (x, (k, e)))) = (bs, (s, (x, (omega arith, e))))

  Gives-fit :
      (n a r n' a' r' : ℕ) (o : Option Flow)
      → n ≤ n'
      → a ≡ a'
      → r ≡ r'
      → Gives win refs n a r o
      → Gives win refs n' a' r' o
  unfolding Gives
  Gives-fit n a r n' a' r' o l e f (m, (g, h)) = (
    m,
    (
      g,
      Owes-mono n n' a' r' m l
          (subst (λ k. Owes win refs n k r' m) e (subst (λ k. Owes win refs n a k m) f h)),
    ),
  )

  source-Owes : Owes win refs 1 1 0 (from_source win refs)
  unfolding Owes IsStack extra
  source-Owes = (
    record { ack = source_msg_ack; req_ack_cnt = 1; ack_cnt = 0 } ∷ [],
    ((refl, omega arith), (refl, (omega arith, refl))),
  )

module _ {D : Type 0} (now : D → Bool) (win : ℤ) (refs : ℕ) where
  center_groups-Gives :
      (n a r : ℕ) (gs : List (List D × Bool)) (m : Flow)
      → Owes win refs n (suc a) r m
      → r + n + size gs + 3 < 2 ^ 16
      → Gives win refs
          (n + length gs)
          (suc (a + owed_by now gs))
          (r + kept_by now gs)
          (center_groups now gs m)
  unfolding center_groups owed_by kept_by size Gives
  center_groups-Gives n a r [] m h l =
      Gives-fit win refs n (suc a) r _ _ _ (some m) (omega arith) (omega arith) (omega arith)
        (m, (refl, h))
  center_groups-Gives n a r ((ds, true) ∷ gs) m h l =
      let (m', (e, o)) =
        ref-Owes win refs n (suc (suc a)) r (log_msg_ack_block_inc m) (inc-Owes win refs n a r m h)
          (omega arith) (omega arith) in
      let (m'', (e', o')) =
        log_dest_group_queue-Gives now win refs n (suc a) r ds m' o (omega arith) in
      let small = later-le now ds in
      rw (e, e')
        (Gives-fit win refs _ _ _ _ _ _ (center_groups now gs m'') (omega arith) (omega arith)
          (omega arith)
          (center_groups-Gives (suc n) (a + later now ds) (r + later now ds) gs m''
            (subst (λ k. Owes win refs (suc n) k (r + later now ds) m'') (omega arith) o')
            (omega arith)))
  center_groups-Gives n a r ((ds, false) ∷ gs) m h l =
      let (m', (e, o)) = ref-Owes win refs n (suc a) r m h (omega arith) (omega arith) in
      let (m'', (e', o')) =
        log_dest_group_queue_off-Gives now win refs n (suc a) r ds m' o (omega arith) in
      let small = later-le now ds in
      rw (e, e')
        (Gives-fit win refs _ _ _ _ _ _ (center_groups now gs m'') (omega arith) (omega arith)
          (omega arith) (center_groups-Gives n (a) (r + later now ds) gs m'' o' (omega arith)))

  center_flow_groups-Gives :
      (gs : List (List D × Bool))
      → size gs + 5 < 2 ^ 16
      → Gives win refs
          (2 + length gs)
          (owed_by now gs)
          (kept_by now gs)
          (center_flow_groups now gs (from_source win refs))
  unfolding center_flow_groups Gives
  center_flow_groups-Gives gs l =
      let (m, (e, o)) =
        ref-Owes win refs 1 1 0 (from_source win refs) (source-Owes win refs) (omega arith)
          (omega arith) in
      let (m', (e', o')) =
        center_groups-Gives 2 0 0 gs (log_msg_ack_block_start center_ack m)
          (start-Owes win refs 1 0 0 m o) (omega arith) in
      rw (e, e')
        (Gives-fit win refs _ _ _ _ _ _ (log_msg_ack m') (omega arith) (omega arith) (omega arith)
          (ack-Owes win refs (2 + length gs) (0 + owed_by now gs) (0 + kept_by now gs) m' o'))

module _ {D : Type 0} (now : D → Bool) (win : ℤ) (refs : ℕ) where
  -- A message of a source that is referenced goes through the center to the groups of fewer than
  -- 2^16 - 5 drivers and groups. Drivers that `now` does not name settle it later, in any order:
  -- `part` have done so, and then `rest` do, each a flag that says whether the driver's group is
  -- under flow control; together they have as many flags as drivers wait, and as many of them set.
  -- However the acknowledge blocks of center and groups come to lie over each other, no assertion
  -- fails. Once `part` have settled it, the window of the source is what it was before if none of
  -- the rest is under flow control, and one less otherwise; and the message is freed if there is no
  -- rest, and not before. When the rest have settled it too, the source is as it was before.
  pub groups_balance :
      (gs : List (List D × Bool)) (part rest : List Bool)
      → 0 < refs
      → size gs + 5 < 2 ^ 16
      → acks (part ++ rest) ≡ owed_by now gs
      → length (part ++ rest) ≡ kept_by now gs
      → (m : Flow) × (m' : Flow) × ((log_source_queue (fresh win refs)
            >>= center_flow_groups now gs)
          ≡ some m)
        × (settle_all part m ≡ some m')
        × (m'.window_size ≡ (if acks rest == 0 then win else win -ℤ pos 1))
        × (m'.freed ≡ is_empty rest)
        × (settle_all rest m' ≡ some (finished win refs))
  unfolding Gives
  groups_balance gs part rest some_ref l as' rs =
      let n = 2 + length gs in
      let w = win -ℤ pos 1 in
      let (m, (e, o)) = center_flow_groups-Gives now w refs gs l in
      let (m', (done, left)) = settle_all-Owes w refs n part rest m (rw (as', rs) o) in
      let (m'', (done', end)) = settle_all-Owes w refs n rest [] m' (rw (append-nil rest) left) in
      (
        m,
        m',
        rw (log_source_queue-fresh now win refs some_ref) e,
        done,
        rw (window_restored now win refs) at
            (Owes-window w refs n (acks rest) (length rest) m' left),
        Owes-freed w refs n rest m' left,
        done' ∙ ap some (rw (window_restored now win refs) at (Owes-none w refs n m'' end)),
      )
