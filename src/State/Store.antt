-- ===== src/State/Store.antt =====
-- The store's entries and its two indexes (internal/state/store.go). A map is a function from keys,
-- since these methods never visit one. Each method holds the store's lock throughout and is one step.
pub mod Indexes
pub mod Primary
use statehouse.Prelude.{
  Float64, Option, some, none, Bool, true, false, not, ◌&&◌, ◌||◌, Str, str, str_eq, [], ◌∷◌, ◌++◌,
  if◌then◌else◌,
}
use statehouse.Device.Class.{Class}
use statehouse.Device.Runtime.{Runtime}
use statehouse.Model.Identity.{DeviceIdentity, is_empty}
use statehouse.Model.Device.{Device}
use statehouse.State.Entry.{DeviceEntry}

abbrev pub Map {ℓ} : Type ℓ → Type ℓ
Map A = Str → Option A

abbrev pub empty_map {ℓ} : {A : Type ℓ} → Map A
empty_map j = none

abbrev pub put {ℓ} : {A : Type ℓ} → Str → A → Map A → Map A
put k v m j = if str_eq j k then some v else m j

abbrev pub remove {ℓ} : {A : Type ℓ} → Str → Map A → Map A
remove k m j = if str_eq j k then none else m j

-- `scheme + ":" + name`
unfoldable pub index_key : Str → Str → Str
index_key scheme name = scheme ++ (str ":" ++ name)

-- `if v != "" { old = v }`
abbrev pub or_old : Str → Str → Str
or_old v old = if is_empty v then old else v

unfoldable pub merge_identity : DeviceIdentity → DeviceIdentity → DeviceIdentity
merge_identity d old = record {
  scheme = or_old d.scheme old.scheme;
  primary = or_old d.primary old.primary;
  display = or_old d.display old.display;
}

-- The class "" leaves the old one.
unfoldable pub merge_class : Class → Class → Class
merge_class (Class.other []) old = old
merge_class c old = c

-- The zero identity, whose parts are empty.
abbrev no_identity : DeviceIdentity
no_identity = record { scheme = []; primary = []; display = [] }

module _ ⦃fl : Float64⦄ where
  pub record Store : Type 0 where
    pub dev : Map DeviceEntry
    pub by_primary : Map Str
    pub by_display : Map Str

  unfoldable pub new_store : Store
  new_store = record { dev = empty_map; by_primary = empty_map; by_display = empty_map }

  unfoldable pub merge_device : Device → Device → Device
  merge_device d old = record old {
    display_name = or_old d.display_name old.display_name;
    class = merge_class d.class old.class;
    room = or_old d.room old.room;
    floor = or_old d.floor old.floor;
    covers = or_old d.covers old.covers;
    location = or_old d.location old.location;
    identity = merge_identity d.identity old.identity;
    unclassified = d.unclassified;
  }

  -- The entry after an upsert, and the identity that it had, which is empty for a new entry. The
  -- runtime counts for a new entry only.
  unfoldable pub upserted : Option DeviceEntry → Device → Runtime → DeviceEntry
  upserted none d rt = record { device = d; runtime = rt; availability_offline_at = none }
  upserted (some e) d rt = record e { device = merge_device d e.device }

  unfoldable pub previous : Option DeviceEntry → DeviceIdentity
  previous none = no_identity
  previous (some e) = e.device.identity

  abbrev pub is_key : Str → Str → Bool
  is_key scheme name = not (is_empty scheme) && not (is_empty name)

  -- The eviction of an old key that is not the new one's.
  unfoldable pub evict : Str → Str → Str → Str → Map Str → Map Str
  evict prev_scheme prev_name scheme name m =
      if is_key prev_scheme prev_name
        && (not (str_eq prev_scheme scheme) || not (str_eq prev_name name))
      then remove (index_key prev_scheme prev_name) m
      else m

  -- `if scheme != "" && name != "" { m[scheme+":"+name] = id }`
  unfoldable pub enter : Str → Str → Str → Map Str → Map Str
  enter id scheme name m = if is_key scheme name then put (index_key scheme name) id m else m

  abbrev pub is_phantom : DeviceIdentity → Bool
  is_phantom i = not (is_empty i.primary) && str_eq i.primary i.display

  drop_orphan : Str → Option DeviceEntry → Store → Store
  drop_orphan old none s = s
  drop_orphan old (some o) s =
      let oid = o.device.identity in
      if is_phantom oid
      then record s {
        dev = remove old s.dev;
        by_primary = remove (index_key oid.scheme oid.primary) s.by_primary;
      }
      else s

  -- Another device that holds the display key, if it is a phantom, goes.
  unfoldable pub drop_phantom : Str → Option Str → Store → Store
  unfolding drop_orphan
  drop_phantom id none s = s
  drop_phantom id (some old) s = if str_eq old id then s else drop_orphan old (s.dev old) s

  -- The entry and the primary index after an upsert, and the display index but for the new key.
  unfoldable pub installed : Str → DeviceEntry → DeviceIdentity → Store → Store
  installed id e prev s =
      let merged = e.device.identity in
      record {
        dev = put id e s.dev;
        by_primary =
            enter id merged.scheme merged.primary
              (evict prev.scheme prev.primary merged.scheme merged.primary s.by_primary);
        by_display = evict prev.scheme prev.display merged.scheme merged.display s.by_display;
      }

  -- The claim of the display key.
  unfoldable pub claim : Str → DeviceIdentity → Store → Store
  claim id merged s =
      let key = index_key merged.scheme merged.display in
      let s' = drop_phantom id (s.by_display key) s in
      if is_key merged.scheme merged.display
      then record s' { by_display = put key id s'.by_display }
      else s

  unfoldable pub upsert : Str → Device → Runtime → Store → Store
  upsert id d rt s =
      let e = upserted (s.dev id) d rt in
      claim id e.device.identity (installed id e (previous (s.dev id)) s)

  or_else : Option Str → Option Str → Option Str
  or_else none o = o
  or_else (some id) o = some id

  -- The id of an identity; `none` where the source returns "" for no record.
  unfoldable pub lookup_id : DeviceIdentity → Store → Option Str
  unfolding or_else
  lookup_id i s =
      or_else
        (if is_key i.scheme i.primary then s.by_primary (index_key i.scheme i.primary) else none)
        (if is_key i.scheme i.display then s.by_display (index_key i.scheme i.display) else none)

  abbrev pub with_display : DeviceEntry → Str → DeviceEntry
  with_display e new = record e {
    device = record (e.device) { identity = record (e.device.identity) { display = new } };
  }

  rename_entry : Str → Str → Str → Option DeviceEntry → Store → Store
  rename_entry id old new none s = s
  rename_entry id old new (some e) s =
      let scheme = e.device.identity.scheme in
      let without =
        if is_key scheme old then remove (index_key scheme old) s.by_display else s.by_display in
      if is_key scheme new
      then record s {
        dev = put id (with_display e new) s.dev;
        by_display = put (index_key scheme new) id without;
      }
      else record s { by_display = without }

  unfoldable pub rename : Str → Str → Str → Store → Store
  unfolding rename_entry
  rename id old new s = rename_entry id old new (s.dev id) s
