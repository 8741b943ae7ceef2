-- ===== src/Sinks/Tests.antt =====
-- A tree of sinks.
use logpp.Common.{[], ◌∷◌, ◌≡◌, refl}
use logpp.Level.{debug, info, error, level_index}
use logpp.Sinks.{Sinks, terminal, level_sink, multi_sink, nil, cons, sink}
use logpp.Sinks.Routes.{sink-heard, heard, routes}

abbrev two_sinks : Sinks
two_sinks = cons (terminal 1) (cons (level_sink (terminal 2) error) nil)

info_goes_to_the_first : sink (level_sink (multi_sink two_sinks) debug) info ≡ 1 ∷ []
unfolding sink
info_goes_to_the_first = refl

sink-heard_example :
    sink (multi_sink two_sinks) info ≡ heard (level_index info) (routes (multi_sink two_sinks) 0)
sink-heard_example = sink-heard (multi_sink two_sinks) info
