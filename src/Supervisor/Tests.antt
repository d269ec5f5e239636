-- ===== src/Supervisor/Tests.antt =====
-- The relay ends again and again.
use reefy_camadmiral.Prelude.{ℕ, ◌≡◌, ◌≢◌, refl, true, false, some, [], ◌∷◌, arith}
use reefy_camadmiral.Supervisor.{
  Child, status, signal, running, ended, sleep, start, restart_notification, exit_code, delay,
  restart, may_restart, pass_over,
}
use reefy_camadmiral.Supervisor.Restarts.{
  AreLimited, ArePolledLimited, pass_over-AreLimited, returned-pass_over,
}

abbrev relay : ℕ → Child
relay n = record { name = "go2rtc"; restartable = true; restarts = n }

abbrev scanner : Child
scanner = record { name = "scanner"; restartable = false; restarts = 0 }

passes_run :
    ((pass_over true ((relay 2, ended (signal 11)) ∷ (scanner, running) ∷ [])).events
      ≡ sleep 4 ∷ start "go2rtc" ∷ restart_notification "go2rtc" ∷ [])
    × ((pass_over true ((relay 4, ended (status 0)) ∷ [])).events
        ≡ sleep 8 ∷ start "go2rtc" ∷ restart_notification "go2rtc" ∷ [])
    × ((pass_over true ((relay 5, ended (status 0)) ∷ [])).returned ≡ some (status 1))
unfolding pass_over restart may_restart delay exit_code
passes_run = (refl, refl, refl)

limited_example :
    AreLimited (pass_over true ((relay 4, ended (status 0)) ∷ (scanner, running) ∷ [])).children
unfolding ArePolledLimited
limited_example =
    pass_over-AreLimited true ((relay 4, ended (status 0)) ∷ (scanner, running) ∷ [])
      (omega arith, (omega arith, tt))

returned_example : (pass_over true ((relay 5, ended (status 0)) ∷ [])).returned ≢ some (status 0)
returned_example = (returned-pass_over true ((relay 5, ended (status 0)) ∷ [])).1
