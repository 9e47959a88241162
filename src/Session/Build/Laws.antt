-- ===== src/Session/Build/Laws.antt =====
-- SetSessionTicketExtension and SetPskExtension as sequences of the controller's steps.
use mathlib.Core.Path.{subst}
use utls.Base.{ℕ, ◌∙◌, ap, Bool, true, false, Option, none, some, ok, >>=-returned, ◌≡◌}
use utls.Session.State.{UConn}
use utls.Session.Controller.Steps.{Reach, here, next, override_psk, override_ticket}
use utls.Session.Controller.{override_psk_ext, override_session_ticket_ext}
use utls.Session.Build.{was_set, set_session_ticket_extension, set_psk_extension}

set_ticket_extension-Reach :
    (enabled : Bool) (ext : Option ℕ) (u v : UConn)
    → set_session_ticket_extension enabled ext u ≡ ok (was_set v)
    → Reach u v
unfolding set_session_ticket_extension
set_ticket_extension-Reach false ext u v h = cc
set_ticket_extension-Reach true none u v h = let same : u ≡ v = cc in subst (Reach u) same here
set_ticket_extension-Reach true (some p) u v h =
    let (w, overridden, is) = >>=-returned (override_session_ticket_ext p u) _ h in
    let same : w ≡ v = cc in next here (override_ticket p (overridden ∙ ap ok same))

-- SetPskExtension marks the hello before it overrides an extension.
abbrev pub marked : Option ℕ → UConn → UConn
marked none u = u
marked (some p) u = record u { hello_ticket_supported = true }

set_psk_extension-Reach :
    (enabled : Bool) (ext : Option ℕ) (u v : UConn)
    → set_psk_extension enabled ext u ≡ ok (was_set v)
    → Reach (marked ext u) v
unfolding set_psk_extension
set_psk_extension-Reach false ext u v h = cc
set_psk_extension-Reach true none u v h = let same : u ≡ v = cc in subst (Reach u) same here
set_psk_extension-Reach true (some p) u v h =
    let (w, overridden, is) =
      >>=-returned (override_psk_ext p (record u { hello_ticket_supported = true })) _ h in
    let same : w ≡ v = cc in next here (override_psk p (overridden ∙ ap ok same))

-- SetSessionTicketExtension and SetPskExtension, when they return without an error or a panic, are
-- sequences of the controller's steps too; SetPskExtension with an extension starts them from the
-- connection whose hello is marked as supporting tickets.
pub setters-Reach :
    (enabled : Bool) (ext : Option ℕ) (u v : UConn)
    → (set_session_ticket_extension enabled ext u ≡ ok (was_set v) → Reach u v)
      × (set_psk_extension enabled ext u ≡ ok (was_set v) → Reach (marked ext u) v)
setters-Reach enabled ext u v =
    (set_ticket_extension-Reach enabled ext u v, set_psk_extension-Reach enabled ext u v)
