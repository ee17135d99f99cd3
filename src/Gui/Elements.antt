-- ===== src/Gui/Elements.antt =====
-- libs/gui-libcon/src/gui_elements.cpp, and the shared form of `title` in the windows of connections.
use device_tester.Prelude.{Bool, if◌then◌else◌, List, [], ◌∷◌, String}
use text.Mathlib.Text.{◌==◌ as str_eq}
use device_tester.Connection.{IpProtocol, ipv4, ipv6}

-- The loop over the entries of a list.
unfoldable pub choose {ℓ} : {A : Type ℓ} → (A → Bool) → List A → A → A
choose clicked [] current = current
choose clicked (a ∷ as') current = choose clicked as' (if clicked a then a else current)

-- `drawIpProtocolSelection`, given which of the entries are clicked.
unfoldable pub draw_ip_protocol_selection : (IpProtocol → Bool) → IpProtocol → IpProtocol
unfolding choose
draw_ip_protocol_selection clicked protocol =
    choose clicked (IpProtocol.none ∷ ipv4 ∷ ipv6 ∷ []) protocol

unfoldable pub title : String → String → String
title empty_name readable_name = if str_eq readable_name "" then empty_name else readable_name
