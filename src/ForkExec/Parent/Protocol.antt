-- ===== src/ForkExec/Parent/Protocol.antt =====
-- What syncWithChild leaves behind, on every path: both ends of the socket pair closed once, and no
-- child that runs on or stays a zombie.
use go_sandbox.ForkExec.Parent.{
  World, Act, wait_loop, write_files, map_ids, MapFile, write_id_maps, Content, write_ack,
  close_own, close_other, kill_child, wait_child, uid_map, Return, after_ack, call_sync_func,
  uid_content, before, fail, failed, fail_after_close, started, setgroups_file, handle_child_failed,
  groups_content, gid_map, gid_content, write_mapped, sync_with_child, is_report, read_child,
}
use go_sandbox.Common.{
  ℕ, List, refl, Bool, how_many, ◌++◌, ◌≡◌, true, suc, ◌+◌, false, how_many-append, Bool-cases,
  zero, inl, ◌∙◌, inr, Option, if◌then◌else◌, some, ◌∷◌, none, arith, [], ap, ◌==◌, nat_eq, ◌&&◌,
}
use go_sandbox.ForkExec.Config.{Runner, unshare_user}

abbrev pub is_close_own : Act → Bool
is_close_own close_own = true
is_close_own _ = false

abbrev pub is_close_other : Act → Bool
is_close_other close_other = true
is_close_other _ = false

abbrev pub is_kill : Act → Bool
is_kill kill_child = true
is_kill _ = false

abbrev pub is_wait : Act → Bool
is_wait wait_child = true
is_wait _ = false

abbrev pub is_ack : Act → Bool
is_ack (write_ack _) = true
is_ack _ = false

-- close_other, close_own, kill_child, and the acknowledgements
abbrev pub Tally : Type 0
Tally = ℕ × ℕ × ℕ × ℕ

abbrev pub tally : List Act → Tally
tally acts = (
  how_many is_close_other acts,
  how_many is_close_own acts,
  how_many is_kill acts,
  how_many is_ack acts,
)

abbrev plus : Tally → Tally → Tally
plus s t = (s.0 + t.0, s.1 + t.1, s.2 + t.2, s.3 + t.3)

tally-append : (xs ys : List Act) → tally (xs ++ ys) ≡ plus (tally xs) (tally ys)
tally-append xs ys =
    rw
      (
        how_many-append is_close_other xs ys,
        how_many-append is_close_own xs ys,
        how_many-append is_kill xs ys,
        how_many-append is_ack xs ys,
      )
      refl

wait_loop-tally : (n : ℕ) → tally (wait_loop n) ≡ (0, 0, 0, 0)
unfolding wait_loop
wait_loop-tally zero = refl
wait_loop-tally (suc n) = wait_loop-tally n

write_files-tally :
    (w : World) (fs : List (MapFile × Content)) → tally (write_files w fs).1 ≡ (0, 0, 0, 0)
unfolding write_files
write_files-tally w [] = refl
write_files-tally w ((f, c) ∷ rest) = ground (arith, write_files-tally w rest)

map_ids-tally : (w : World) (r : Runner) → tally (map_ids w r) ≡ (0, 0, 0, 0)
unfolding map_ids write_id_maps
map_ids-tally w r =
    let files : List (MapFile × Content) =
      (uid_map, uid_content r)
      ∷ (setgroups_file, groups_content r)
      ∷ (gid_map, gid_content r)
      ∷ [] in
    let e = tally-append (write_files w files).1 (write_mapped (write_files w files).0 ∷ []) in
    elim (Bool-cases (unshare_user r)) [
      | inl b ↦ rw b (e ∙ ap (λ t. plus t (0, 0, 0, 0)) (write_files-tally w files))
      | inr b ↦ rw b refl
    ]

abbrev pub has_failed : Return → Bool
has_failed (failed _) = true
has_failed (started _) = false

abbrev pub sync_passes : Option (Option ℕ) → Bool
sync_passes none = true
sync_passes (some none) = true
sync_passes (some (some _)) = false

abbrev pub one_if : Bool → ℕ
one_if b = if b then 1 else 0

after_ack-tally :
    (w : World) (r : Runner) (pid : ℕ)
    → tally (after_ack w r pid).1 ≡ (0, 1, one_if (has_failed (after_ack w r pid).0), 0)
unfolding after_ack before fail_after_close handle_child_failed
after_ack-tally w r pid = ground (arith, wait_loop-tally w.interrupted)

call_sync_func-tally :
    (w : World) (r : Runner) (pid : ℕ)
    → tally (call_sync_func w r pid).1
      ≡ (0, 1, one_if (has_failed (call_sync_func w r pid).0), one_if (sync_passes w.sync_result))
unfolding call_sync_func fail before fail_after_close handle_child_failed
call_sync_func-tally w r pid =
    ground (arith, after_ack-tally w r pid, wait_loop-tally w.interrupted)

abbrev opening : World → Runner → List Act
opening w r = close_other ∷ map_ids w r ++ read_child ∷ []

opening-tally : (w : World) (r : Runner) → tally (opening w r) ≡ (1, 0, 0, 0)
opening-tally w r =
    tally-append (close_other ∷ []) (map_ids w r ++ read_child ∷ [])
    ∙ ap (plus (1, 0, 0, 0)) (
        tally-append (map_ids w r) (read_child ∷ [])
        ∙ ap (λ t. plus t (0, 0, 0, 0)) (map_ids-tally w r))

failing-tally : (n : ℕ) → tally (close_own ∷ kill_child ∷ wait_loop n) ≡ (0, 1, 1, 0)
failing-tally n =
    tally-append (close_own ∷ kill_child ∷ []) (wait_loop n)
    ∙ ap (plus (0, 1, 1, 0)) (wait_loop-tally n)

unit-plus : (a b c d : ℕ) → plus (1, 0, 0, 0) (a, b, c, d) ≡ (suc a, b, c, d)
unit-plus a b c d = ground arith

-- Whatever the child, the files and the callback do: each end of the socket pair is closed exactly
-- once, the child is killed exactly if it was cloned and the start fails, and it is acknowledged
-- exactly if its first message reports no error and the callback has not failed.
pub sync_with_child-tally :
    (w : World) (r : Runner) (pid err1 : ℕ)
    → (let result = sync_with_child w r pid err1 in
        tally result.1 ≡ (
          1,
          1,
          one_if ((err1 == 0) && has_failed result.0),
          one_if ((err1 == 0) && (is_report w.first_read && sync_passes w.sync_result)),
        ))
unfolding sync_with_child before fail fail_after_close handle_child_failed
sync_with_child-tally w r pid err1 = elim (Bool-cases (err1 == 0)) [
  | inr b ↦ rw b refl
  | inl b ↦ elim (Bool-cases (is_report w.first_read)) [
    | inl c ↦
        rw (b, c)
          (tally-append (opening w r) (call_sync_func w r pid).1
            ∙ ap (λ t. plus t (tally (call_sync_func w r pid).1)) (opening-tally w r)
            ∙ ap (plus (1, 0, 0, 0)) (call_sync_func-tally w r pid)
            ∙ unit-plus _ _ _ _)
    | inr c ↦
        rw (b, c)
          (tally-append (opening w r) (close_own ∷ kill_child ∷ wait_loop w.interrupted)
            ∙ ap (λ t. plus t (tally (close_own ∷ kill_child ∷ wait_loop w.interrupted)))
                (opening-tally w r)
            ∙ ap (plus (1, 0, 0, 0)) (failing-tally w.interrupted))
  ]
]
