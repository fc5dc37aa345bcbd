-- ===== src/Plugin/StaticRegistry/Register.antt =====
-- What a registration does to the static plugins.
use cppup.Base.{
  false, not, ◌||◌, ◌≡◌, refl, arith, List, [], ◌∷◌, ◌++◌, map, All, All-append, Bytes, eqb,
  eqb_iff, contains, NoDup, Outcome, ok, err, if_intro,
}
use cppup.Plugin.Descriptors.{Manifest, VtableSupport, DescriptorError, validate_descriptors}
use cppup.Plugin.Descriptors.Complete.{IsAccepted, validate_descriptors-IsAccepted}
use cppup.Plugin.StaticRegistry.{
  StaticPluginRegistration, StaticRegistrationError, Registered, has_plugin, add_unless_known,
  add_checked, add_parsed, register_plugin,
}

contains-names_add :
    (n : Bytes) (entries : List StaticPluginRegistration) (reg : StaticPluginRegistration)
    → contains n (map (λ r. r.name) (entries ++ (reg ∷ [])))
      ≡ (contains n (map (λ r. r.name) entries) || eqb n reg.name)
unfolding contains
contains-names_add n [] reg = ground arith
contains-names_add n (e ∷ entries) reg = ground (arith, contains-names_add n entries reg)

module _ (parse_manifest : Bytes → Outcome Bytes Manifest) (support : VtableSupport) where
  -- The manifest parses, has the plugin's name, and its descriptors are accepted.
  pub record IsPlugin (reg : StaticPluginRegistration) : Type 0 where
    pub manifest : Manifest
    pub parses : parse_manifest reg.manifest_toml ≡ ok manifest
    pub named : manifest.name ≡ reg.name
    pub accepted : IsAccepted support manifest reg.descriptors

  -- Each plugin is one, and no two have one name.
  pub record IsRegistry (entries : List StaticPluginRegistration) : Type 0 where
    pub plugins : All IsPlugin entries
    pub distinct : NoDup (map (λ r. r.name) entries)

  -- The registration was refused and changed nothing, or it stands behind the others.
  pub data Registers (entries : List StaticPluginRegistration) (reg : StaticPluginRegistration)
      : Registered → Type 0 where
    refused : (e : StaticRegistrationError) → Registers entries reg (entries, err e)
    added :
        IsPlugin reg
        → has_plugin entries reg.name ≡ false
        → Registers entries reg (entries ++ (reg ∷ []), ok tt)

  add_unless_known-Registers :
      (entries : List StaticPluginRegistration) (reg : StaticPluginRegistration)
      → IsPlugin reg
      → Registers entries reg (add_unless_known entries reg)
  unfolding add_unless_known
  add_unless_known-Registers entries reg p =
      if_intro (Registers entries reg) (has_plugin entries reg.name) (λ h. refused _)
        (λ h. added p h)

  add_checked-Registers :
      (entries : List StaticPluginRegistration) (reg : StaticPluginRegistration)
      (o : Outcome DescriptorError (Unit {0}))
      → (o ≡ ok tt → IsPlugin reg)
      → Registers entries reg (add_checked entries reg o)
  unfolding add_checked
  add_checked-Registers entries reg (err e) h = refused _
  add_checked-Registers entries reg (ok _) h = add_unless_known-Registers entries reg (h refl)

  add_parsed-Registers :
      (entries : List StaticPluginRegistration) (reg : StaticPluginRegistration)
      (o : Outcome Bytes Manifest)
      → parse_manifest reg.manifest_toml ≡ o
      → Registers entries reg (add_parsed support entries reg o)
  unfolding add_parsed
  add_parsed-Registers entries reg (err e) q = refused _
  add_parsed-Registers entries reg (ok m) q =
      if_intro (Registers entries reg) (not (eqb m.name reg.name)) (λ h. refused _)
        (λ h.
          add_checked-Registers entries reg (validate_descriptors reg.descriptors m support) (λ v.
            record {
              manifest = m;
              parses = q;
              named = ground (arith, eqb_iff m.name reg.name);
              accepted = validate_descriptors-IsAccepted reg.descriptors m support v;
            }))

  -- A registration that is refused changes nothing; one that is accepted stands behind the others, has
  -- a new name and a manifest that parses under it and declares exactly its descriptors.
  pub register_plugin-Registers :
      (entries : List StaticPluginRegistration) (reg : StaticPluginRegistration)
      → Registers entries reg (register_plugin parse_manifest entries reg support)
  unfolding register_plugin
  register_plugin-Registers entries reg =
      add_parsed-Registers entries reg (parse_manifest reg.manifest_toml) refl

  NoDup-add :
      (entries : List StaticPluginRegistration) (reg : StaticPluginRegistration)
      → NoDup (map (λ r. r.name) entries)
      → has_plugin entries reg.name ≡ false
      → NoDup (map (λ r. r.name) (entries ++ (reg ∷ [])))
  unfolding has_plugin contains
  NoDup-add [] reg d h = (refl, tt)
  NoDup-add (e ∷ entries) reg (new, d) h = (
    ground (arith, contains-names_add e.name entries reg),
    NoDup-add entries reg d (ground arith),
  )

  IsRegistry-of :
      (entries : List StaticPluginRegistration) (reg : StaticPluginRegistration) {r : Registered}
      → IsRegistry entries
      → Registers entries reg r
      → IsRegistry r.0
  IsRegistry-of entries reg i (refused e) = i
  IsRegistry-of entries reg i (added p h) = record {
    plugins = All-append IsPlugin entries (reg ∷ []) i.plugins (p, tt);
    distinct = NoDup-add entries reg i.distinct h;
  }

  -- Whatever is registered, the plugins of the registry keep different names, and each has a manifest
  -- that parses under its name and declares exactly its descriptors.
  pub register_plugin-IsRegistry :
      (entries : List StaticPluginRegistration) (reg : StaticPluginRegistration)
      → IsRegistry entries
      → IsRegistry (register_plugin parse_manifest entries reg support).0
  register_plugin-IsRegistry entries reg i =
      IsRegistry-of entries reg i (register_plugin-Registers entries reg)
