-- ===== src/App/Posts.antt =====
-- What an action of the setup returns with: a rule for each of its steps, and for the parts of the setup.
use device_tester.Prelude.{
  sym, subst, arith, ℕ, Bool, true, false, ◌≡◌, refl, if◌then◌else◌, List, ◌∷◌,
}
use device_tester.App.Machine.{
  make, refuse_unless, when, follow, Machine, Resource, vk_instance, debug_report, device,
  descriptor_pool, vulkan_window, font_upload, Call, makes, destroys, Result, returned, refused,
  died, undefined, Action, checked, im_assert,
}
use device_tester.App.Setup.{
  create_device, create_debug_report, create_instance, physical_device, queue_family, setup_vulkan,
  setup_vulkan_window, upload_fonts,
}

-- What holds of a value that is returned and of the calls, and of the calls before a `return false`.
unfoldable pub Post :
    {A : Type 0} → (A → List Call → Type 0) → (List Call → Type 0) → Result A × List Call → Type 0
Post P R (returned a, cs) = P a cs
Post P R (refused, cs) = R cs
Post P R (died, cs) = Unit
Post P R (undefined, cs) = Unit

abbrev pub Leaves : {A : Type 0} → List Call → A → List Call → Type 0
Leaves ds a cs = cs ≡ ds

pub follow-Post :
    {A B : Type 0} (Q : B → List Call → Type 0) (R : List Call → Type 0) (f : A → Action B)
    (ds : List Call) (rc : Result A × List Call)
    → Post (Leaves ds) R rc
    → ((a : A) → Post Q R (f a ds))
    → Post Q R (follow f rc)
unfolding Post follow
follow-Post Q R f ds (returned a, cs) e h = subst (λ cs. Post Q R (f a cs)) (sym e) (h a)
follow-Post Q R f ds (refused, cs) r h = r
follow-Post Q R f ds (died, cs) r h = tt
follow-Post Q R f ds (undefined, cs) r h = tt

pub returned_step :
    {A B : Type 0} (Q : B → List Call → Type 0) (R : List Call → Type 0) (f : A → Action B) (a : A)
    (cs : List Call)
    → Post Q R (f a cs)
    → Post Q R (follow f (returned a, cs))
unfolding follow
returned_step Q R f a cs h = h

pub refuse_step :
    {B : Type 0} (Q : B → List Call → Type 0) (R : List Call → Type 0) (f : Unit → Action B)
    (b : Bool) (cs : List Call)
    → R cs
    → (b ≡ true → Post Q R (f tt cs))
    → Post Q R (follow f (refuse_unless b cs))
unfolding Post follow
refuse_step Q R f true cs r h = h refl
refuse_step Q R f false cs r h = r

pub when-Post :
    (R : List Call → Type 0) (b : Bool) (r : Resource) (cs : List Call)
    → Post (Leaves (if b then makes r ∷ cs else cs)) R (when b (make r) cs)
unfolding Post
when-Post R true r cs = refl
when-Post R false r cs = refl

abbrev pub with_debug : Bool → List Call → List Call
with_debug debug cs = if debug then makes debug_report ∷ cs else cs

abbrev pub set_up : Bool → List Call → List Call
set_up debug cs = makes descriptor_pool ∷ makes device ∷ with_debug debug (makes vk_instance ∷ cs)

pub instance-Post :
    (m : Machine) (R : List Call → Type 0) (cs : List Call)
    → Post (Leaves (with_debug m.debug (makes vk_instance ∷ cs))) R (create_instance m cs)
unfolding create_instance checked im_assert create_debug_report Post follow
instance-Post m R cs = ground arith

pub gpu-Post :
    (m : Machine) (R : List Call → Type 0) (cs : List Call)
    → Post (Leaves cs) R (physical_device m cs)
unfolding physical_device checked im_assert Post follow
gpu-Post m R cs = ground arith

pub family-Post :
    (m : Machine) (R : List Call → Type 0) (gpu : ℕ) (cs : List Call)
    → Post (Leaves cs) R (queue_family m gpu cs)
unfolding queue_family checked im_assert Post follow
family-Post m R gpu cs = ground arith

pub device-Post :
    (m : Machine) (R : List Call → Type 0) (gpu family : ℕ) (cs : List Call)
    → Post (Leaves (makes descriptor_pool ∷ makes device ∷ cs)) R (create_device m gpu family cs)
unfolding create_device checked im_assert Post follow
device-Post m R gpu family cs = ground arith

pub setup_vulkan-Post :
    (m : Machine) (R : List Call → Type 0) (cs : List Call)
    → Post (Leaves (set_up m.debug cs)) R (setup_vulkan m cs)
unfolding setup_vulkan
setup_vulkan-Post m R cs = follow-Post _ _ _ _ (create_instance m cs) (instance-Post m R cs) (λ u.
    follow-Post _ _ _ _ (physical_device m _) (gpu-Post m R _) (λ gpu.
      follow-Post _ _ _ _ (queue_family m gpu _) (family-Post m R gpu _)
        (λ family. device-Post m R gpu family _)))

pub window-Post :
    (m : Machine) (R : List Call → Type 0) (gpu family : ℕ) (cs : List Call)
    → Post (Leaves (makes vulkan_window ∷ cs)) R (setup_vulkan_window m gpu family cs)
unfolding setup_vulkan_window im_assert Post follow
window-Post m R gpu family cs = ground arith

pub upload-Post :
    (m : Machine) (R : List Call → Type 0) (cs : List Call)
    → Post (Leaves (destroys font_upload ∷ makes font_upload ∷ cs)) R (upload_fonts m cs)
unfolding upload_fonts checked Post follow
upload-Post m R cs = ground arith
