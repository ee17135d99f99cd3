-- ===== src/App/Resources.antt =====
-- The objects of SDL, Vulkan and the drawing library over calls, and which calls they allow.
use device_tester.Prelude.{
  ℕ, ◌==◌, Bool, true, false, not, ◌&&◌, ◌||◌, if◌then◌else◌, Option, some, none, List, [], ◌∷◌,
}
use device_tester.App.Machine.{
  Resource, sdl, window, vk_instance, debug_report, device, descriptor_pool, surface, vulkan_window,
  imgui_context, sdl_backend, vulkan_backend, font_upload, plot_context, Call, makes, destroys,
}

abbrev pub place : Resource → ℕ
place sdl = 0
place window = 1
place vk_instance = 2
place debug_report = 3
place device = 4
place descriptor_pool = 5
place surface = 6
place vulkan_window = 7
place imgui_context = 8
place sdl_backend = 9
place vulkan_backend = 10
place font_upload = 11
place plot_context = 12

-- What an object is made from, and has to be destroyed before.
abbrev pub needs : Resource → List Resource
needs window = sdl ∷ []
needs debug_report = vk_instance ∷ []
needs device = vk_instance ∷ []
needs descriptor_pool = device ∷ []
needs surface = vk_instance ∷ window ∷ []
needs vulkan_window = surface ∷ device ∷ []
needs sdl_backend = imgui_context ∷ window ∷ []
needs vulkan_backend = imgui_context ∷ vulkan_window ∷ descriptor_pool ∷ []
needs font_upload = vulkan_backend ∷ []
needs _ = []

abbrev pub has : List Resource → Resource → Bool
has [] r = false
has (x ∷ xs) r = (place x == place r) || has xs r

abbrev pub has_all : List Resource → List Resource → Bool
has_all live [] = true
has_all live (r ∷ rs) = has live r && has_all live rs

abbrev pub needed : Resource → List Resource → Bool
needed r [] = false
needed r (x ∷ xs) = has (needs x) r || needed r xs

abbrev pub without : Resource → List Resource → List Resource
without r [] = []
without r (x ∷ xs) = if place x == place r then xs else x ∷ without r xs

abbrev pub allowed : Call → List Resource → Bool
allowed (makes r) live = has_all live (needs r) && not (has live r)
allowed (destroys r) live = has live r && not (needed r live)

abbrev pub changed : Call → List Resource → List Resource
changed (makes r) live = r ∷ live
changed (destroys r) live = without r live

-- The objects that there are after calls, newest first. There are none if a call made an object again, or
-- without what it is made from, or destroyed one that there was not or that another needed.
abbrev pub remaining : List Call → Option (List Resource)
remaining [] = some []
remaining (c ∷ cs) = elim (remaining cs) [
  | none ↦ none
  | some live ↦ if allowed c live then some (changed c live) else none
]
