-- ===== src/Capabilities/Tests.antt =====
-- A registry and a child under a ceiling, and the theorems at them.
use equi_seek.Prelude.{String, ◌≡◌, refl, none, some, List, [], ◌∷◌, ◌↔◌, all, elem}
use equi_seek.Dict.{Dict, lookup}
use equi_seek.Capabilities.Registry.{
  CapabilityDescriptor, CapabilityError, TrustLevel, Layer, returned, failed, new_layer, register,
  add_entry, find_entry, child, narrow, resolve, provide,
}
use equi_seek.Capabilities.Ceiling.{
  Built, root, registered, nested, first, Permits, resolve-Permits,
}
use equi_seek.Capabilities.Found.{Provides, resolve_iff}

abbrev shell : CapabilityDescriptor
shell = record {
  kind = "tool";
  name = "shell";
  version = "1";
  features = "stream" ∷ [];
  trust = TrustLevel.builtin;
}

abbrev base : Layer String
base = new_layer none

abbrev with_shell : Layer String
with_shell = add_entry base shell "sh"

shell_added : register shell "sh" base ≡ returned with_shell
unfolding register find_entry
shell_added = refl

abbrev allow_shell : Dict (List String)
allow_shell = ("tool", "shell" ∷ []) ∷ []

abbrev inner : List (Layer String)
inner = new_layer (some allow_shell) ∷ with_shell ∷ []

inner_made : child allow_shell with_shell [] ≡ returned inner
unfolding child narrow add_entry
inner_made = refl

inner-Built : Built inner
inner-Built = nested allow_shell (registered (root none) (first shell "sh" shell_added)) inner_made

inner_resolves : resolve "tool" "shell" ("stream" ∷ []) inner ≡ returned "sh"
unfolding resolve provide find_entry lookup elem all add_entry
inner_resolves = refl

other_name_refused :
    resolve "tool" "browser" [] inner ≡ failed (CapabilityError.outside_scope "tool" "browser")
unfolding resolve provide find_entry lookup elem all add_entry
other_name_refused = refl

resolve-Permits_example : Permits "tool" "shell" inner
resolve-Permits_example =
    resolve-Permits inner-Built "tool" "shell" ("stream" ∷ []) "sh" inner_resolves

resolve_iff_example :
    (resolve "tool" "shell" ("stream" ∷ []) inner ≡ returned "sh")
    ↔ Provides "tool" "shell" ("stream" ∷ []) "sh" inner
resolve_iff_example = resolve_iff "tool" "shell" ("stream" ∷ []) "sh" inner
