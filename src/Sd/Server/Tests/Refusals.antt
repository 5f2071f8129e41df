-- ===== src/Sd/Server/Tests/Refusals.antt =====
-- Connecting, subscribing and refused requests, of src/sd/sd.c, on concrete states.
use tpaf.Prelude.{◌≡◌, refl, none, some, [], ◌∷◌}
use tpaf.Prelude.Int.{pos}
use tpaf.Util.Sequence
use tpaf.Util.Pmap
use tpaf.Util.Pmap.{Pmap, Entry}
use tpaf.Sd.Client.{Rc}
use tpaf.Sd.Server.Requests.{publishes, run, refused_changes_nothing}
use tpaf.Sd.Server.Refusals.{Refusal, publishes_older, refusal_lem}
use tpaf.Sd.Server.Addition.{first}
use tpaf.Sd.Server.Tests.{entry, gen, line, owner, quiet}

older :
    Refusal
      (λ text. none)
      quiet
      (publishes (pos 1) (pos 7) (pos 3) [] (pos 30))
      Rc.newer_service_generation_exists
unfolding Pmap.get Pmap.index_of Sequence.index_of
older =
    publishes_older (pos 1) (pos 7) (pos 3) [] (pos 30) owner (line (entry 7 (pos 7) ∷ []) [])
      (first (pos 7) gen) gen refl refl refl refl refl

refusal_lem_example :
    run (λ text. none) (publishes (pos 1) (pos 7) (pos 3) [] (pos 30)) quiet
    ≡ some (Rc.newer_service_generation_exists, quiet)
refusal_lem_example =
    refusal_lem (λ text. none) quiet (publishes (pos 1) (pos 7) (pos 3) [] (pos 30))
      Rc.newer_service_generation_exists older

refused_changes_nothing_example : quiet ≡ quiet
refused_changes_nothing_example =
    refused_changes_nothing (λ text. none) (publishes (pos 1) (pos 7) (pos 3) [] (pos 30)) quiet
      quiet Rc.newer_service_generation_exists
      (refusal_lem (λ text. none) quiet (publishes (pos 1) (pos 7) (pos 3) [] (pos 30))
        Rc.newer_service_generation_exists older)
      (λ e. cc)
