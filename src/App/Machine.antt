-- ===== src/App/Machine.antt =====
-- app/src/application_vulkan.cpp: what SDL, Vulkan and the drawing library report while they are set up,
-- and the calls that make and destroy their objects, as a monad of those calls and of early ends.
use device_tester.Prelude.{ℕ, Bool, not, ◌||◌, if◌then◌else◌, List, ◌∷◌}
use device_tester.App.Vulkan.{VkResult, check_vk_result}
use device_tester.App.Devices.{DeviceType}

pub data Resource : Type 0 where
  sdl window vk_instance debug_report device descriptor_pool surface vulkan_window : Resource
  imgui_context sdl_backend vulkan_backend font_upload plot_context : Resource

pub data Call : Type 0 where
  makes : Resource → Call
  destroys : Resource → Call

-- `debug` is the build with IMGUI_VULKAN_DEBUG_REPORT and `asserts` one whose IM_ASSERT stops it.
-- `sdl_init` and `create_window` are whether SDL did it; `create_surface` is told whether there is a
-- window. `queues` has, for a device of `gpus`, which families have graphics. `destroy_window` is what
-- ImGui_ImplVulkanH_DestroyWindow destroys, in order.
pub record Machine : Type 0 where
  pub debug : Bool
  pub asserts : Bool
  pub sdl_init : Bool
  pub create_window : Bool
  pub create_instance : VkResult
  pub debug_function : Bool
  pub create_debug_report : VkResult
  pub count_gpus : VkResult
  pub list_gpus : VkResult
  pub gpus : List DeviceType
  pub queues : ℕ → List Bool
  pub create_device : VkResult
  pub create_pool : VkResult
  pub create_surface : Bool → Bool
  pub surface_support : ℕ → ℕ → Bool
  pub reset_pool : VkResult
  pub begin_buffer : VkResult
  pub end_buffer : VkResult
  pub submit : VkResult
  pub upload_done : VkResult
  pub device_idle : VkResult
  pub destroy_window : List Resource

-- `refused` is a `return false`, `died` is abort, exit or a failed assertion.
pub data Result (A : Type 0) : Type 0 where
  returned : A → Result A
  refused : Result A
  died : Result A
  undefined : Result A

-- The calls, newest first, stay what they were after an early end.
abbrev pub Action : Type 0 → Type 0
Action A = List Call → Result A × List Call

module _ {A : Type 0} where
  abbrev pub pure : A → Action A
  pure a cs = (returned a, cs)

unfoldable pub follow :
    {A B : Type 0} → (A → Action B) → Result A × List Call → Result B × List Call
follow f (returned a, cs) = f a cs
follow f (refused, cs) = (refused, cs)
follow f (died, cs) = (died, cs)
follow f (undefined, cs) = (undefined, cs)

infixl 5 ◌>>=◌ ◌>>◌
abbrev pub ◌>>=◌ : {A B : Type 0} → Action A → (A → Action B) → Action B
◌>>=◌ m f cs = follow f (m cs)

abbrev pub ◌>>◌ : {A B : Type 0} → Action A → Action B → Action B
m >> k = m >>= λ a. k

abbrev pub make : Resource → Action Unit
make r cs = (returned tt, makes r ∷ cs)

abbrev pub destroy : Resource → Action Unit
destroy r cs = (returned tt, destroys r ∷ cs)

abbrev pub refuse_unless : Bool → Action Unit
refuse_unless b cs = (if b then returned tt else refused, cs)

abbrev pub die_unless : Bool → Action Unit
die_unless b cs = (if b then returned tt else died, cs)

abbrev pub defined_when : Bool → Action Unit
defined_when b cs = (if b then returned tt else undefined, cs)

abbrev pub when : Bool → Action Unit → Action Unit
when b m cs = if b then m cs else (returned tt, cs)

unfoldable pub im_assert : Machine → Bool → Action Unit
im_assert m b = die_unless (not m.asserts || b)

unfoldable pub checked : VkResult → Action Unit
unfolding check_vk_result
checked r = die_unless (check_vk_result r)
