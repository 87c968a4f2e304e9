-- ===== src/Library/PollWatch/Runs.antt =====
-- A client that applies the events of every poll, failed polls included.
use aggexp.Prelude.{◌≡◌, refl, ap, ◌∙◌, sym, List, [], ◌∷◌, ◌++◌}
use aggexp.Text.{Bytes}
use aggexp.Kube.{Accessor, Result, ok, err, Event}
use aggexp.Library.PollWatch.{Snapshot, poll, run}
use aggexp.Library.PollWatch.Replay.{
  View, replay, latest, nothing, view, IsKeyed, view_empty, replay-append, poll-Follows,
}

module _ {Obj : Type 0} (k : Accessor Obj) (poll_hash : Obj → Bytes) where
  abbrev Agrees : View → Snapshot Obj × List (Event Obj) → Type 0
  Agrees v out = IsKeyed k poll_hash out.0 × (replay k poll_hash v out.1 ≡ view k poll_hash out.0)

  poll-Agrees :
      (m : Snapshot Obj) (listed : Result (List Obj))
      → IsKeyed k poll_hash m
      → Agrees (view k poll_hash m) (poll k poll_hash m listed)
  unfolding poll
  poll-Agrees m (err e) h = (h, refl)
  poll-Agrees m (ok items) h =
      let (keyed, sent, same) = poll-Follows k poll_hash m items h in (keyed, sent ∙ sym same)

  run-Agrees :
      (m : Snapshot Obj) (polls : List (Result (List Obj)))
      → IsKeyed k poll_hash m
      → Agrees (view k poll_hash m) (run k poll_hash m polls)
  unfolding run
  run-Agrees m [] h = (h, refl)
  run-Agrees m (listed ∷ rest) h =
      let out = poll k poll_hash m listed in
      let (keyed, sent) = poll-Agrees m listed h in
      let (keyed', later) = run-Agrees out.0 rest keyed in
      (
        keyed',
        replay-append k poll_hash (view k poll_hash m) out.1 (run k poll_hash out.0 rest).1
            ∙ ap (λ v. replay k poll_hash v (run k poll_hash out.0 rest).1) sent
            ∙ later,
      )

  run-append :
      (m : Snapshot Obj) (polls : List (Result (List Obj))) (listed : Result (List Obj))
      → (run k poll_hash m (polls ++ listed ∷ [])).0
        ≡ (poll k poll_hash (run k poll_hash m polls).0 listed).0
  unfolding run
  run-append m [] listed = refl
  run-append m (first ∷ rest) listed = run-append (poll k poll_hash m first).0 rest listed

  -- After any polls, some of which may have failed, and then a successful one, a client that started
  -- with nothing and has applied every event (ADDED and MODIFIED keep the object, DELETED drops it)
  -- knows for every name exactly the hash of the last object listed under it, and nothing of any
  -- name that was not listed.
  pub run-latest :
      (polls : List (Result (List Obj))) (items : List Obj)
      → replay k poll_hash (nothing k poll_hash) (run k poll_hash [] (polls ++ ok items ∷ [])).1
        ≡ latest k poll_hash items (nothing k poll_hash)
  run-latest polls items =
      let before = run k poll_hash [] polls in
      let (keyed, _) = run-Agrees [] polls tt in
      let (_, _, same) = poll-Follows k poll_hash before.0 items keyed in
      ap (λ v. replay k poll_hash v (run k poll_hash [] (polls ++ ok items ∷ [])).1)
        (sym (view_empty k poll_hash))
      ∙ (run-Agrees [] (polls ++ ok items ∷ []) tt).1
      ∙ ap (view k poll_hash) (run-append [] polls (ok items))
      ∙ same
