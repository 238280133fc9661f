-- ===== src/Poller/Select/Tests.antt =====
-- src/poller/poller_select.c: a poller with two descriptors.
use zero_tool_kit.Prelude.{
  ◌≡◌, refl, true, false, not, ◌&&◌, ◌==◌, leb, some, List, [], ◌∷◌, length, take,
}
use zero_tool_kit.Poller.Select.{Poller, Sets, create, poll, selected, fd_setsize, poll_in}
use zero_tool_kit.Poller.Select.Registry.{IsRegistry, lookup}
use zero_tool_kit.Poller.Select.Refines.{Op, adds, mods, dels, run, meant_all, IsRegistry-refines}
use zero_tool_kit.Poller.Select.Ready.{calls_of, poll-calls}

abbrev fresh : Poller
fresh = record {
  wake_r = 3;
  wake_w = some 4;
  entries = record { fd = 3; events = poll_in; cb = 0; user = 0 } ∷ [];
}

fresh_made : create 3 4 true ≡ some fresh
unfolding create
fresh_made = refl

abbrev some_calls : List Op
some_calls =
    adds true 7 1 100 200
    ∷ adds true 8 2 100 201
    ∷ mods 7 3
    ∷ dels 3
    ∷ adds false 9 1 100 202
    ∷ dels 8
    ∷ []

IsRegistry-refines_example :
    IsRegistry (run some_calls fresh)
    × (lookup (run some_calls fresh) ≡ meant_all 3 some_calls (lookup fresh))
IsRegistry-refines_example = IsRegistry-refines 3 4 true some_calls {p = fresh} fresh_made

some_calls-IsRegistry : IsRegistry (run some_calls fresh)
some_calls-IsRegistry = (IsRegistry-refines 3 4 true some_calls {p = fresh} fresh_made).0

abbrev two_ready : Sets
two_ready = record { rfds = λ f. true; wfds = λ f. f == 7; efds = λ f. false }

poll-calls_example : poll false (run some_calls fresh) (selected two_ready) ≡ record {
  result =
      some
        (length (calls_of two_ready (run some_calls fresh).wake_r (run some_calls fresh).entries));
  drained =
      not (leb fd_setsize (run some_calls fresh).wake_r)
      && two_ready.rfds (run some_calls fresh).wake_r;
  calls = take 64 (calls_of two_ready (run some_calls fresh).wake_r (run some_calls fresh).entries);
}
poll-calls_example = poll-calls false (run some_calls fresh) two_ready some_calls-IsRegistry
