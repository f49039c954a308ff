-- ===== src/Server/Events/Tests.antt =====
-- The server's invariant at a device and a dashboard that have just come.
use sensor_link.Prelude.{◌+◌, arith, refl, [], ◌∷◌}
use sensor_link.Server.Main.{Server, accept_devices, accept_subscribers}
use sensor_link.Server.Main.Keeps.{IsServer}
use sensor_link.Server.Events.{
  Reach, start, later, handle, started, devices_waiting, subscribers_waiting,
}
use sensor_link.Server.Events.Inv.{Reach-IsServer}

abbrev two_here : Server
two_here = accept_subscribers (6 ∷ []) (accept_devices (5 ∷ []) started)

two_here-Reach : Reach (0 + 1 + 0) two_here
unfolding handle
two_here-Reach =
    later (subscribers_waiting (6 ∷ [])) (later (devices_waiting (5 ∷ [])) start refl) refl

Reach-IsServer_example : IsServer two_here
Reach-IsServer_example = Reach-IsServer two_here-Reach (omega arith)
