-- ===== src/Central/Files.antt =====
-- The files of a central unit (hahomematic/central/__init__.py) when devices are deleted.
use hahomematic.Base.{◌≡◌, ◌≢◌, ap, ◌∙◌, true, false, not, ◌||◌, some, ◌==◌, list_eq, nat_eq, all}
use hahomematic.Base.Dict.{lookup, has}
use hahomematic.Base.Text.{Text}
use hahomematic.PersistentCache.{IsFaithful, init, load, data_changed, load-save}
use hahomematic.Central.{Device, RawDevices, Central, Outside, save_caches, delete_device}
use hahomematic.Central.Devices.{IsKeyed}
use hahomematic.Central.Deletions.{delete_device_lem}

-- what the next process reads from the file of the device descriptions
abbrev pub read_again : Outside → Central → RawDevices
read_again o c =
    (load o.device_json true (init o.device_json c.device_file.file)).0.persistant_cache

saved_again :
    (o : Outside) (c : Central)
    → IsFaithful o.device_json
    → (o.device_json.hash c.device_descriptions.raw_device_descriptions
        == c.device_file.last_hash_saved)
      ≡ false
    → o.device_json.hash c.device_descriptions.raw_device_descriptions
      ≢ o.device_json.hash o.device_json.nothing
    → read_again o (save_caches o true true c) ≡ c.device_descriptions.raw_device_descriptions
unfolding save_caches data_changed
saved_again o c faithful changed some_data =
    load-save o.device_json
      (record c.device_file { persistant_cache = c.device_descriptions.raw_device_descriptions })
      faithful (ap not changed) some_data

file-delete_device :
    (o : Outside) (a : Text) (d : Device) (c : Central)
    → IsKeyed c.devices
    → lookup a c.devices ≡ some d
    → all (λ b. a == b || not (has b c.devices)) d.channels ≡ true
    → (delete_device o a c).device_file ≡ c.device_file
file-delete_device o a d c keyed found alone =
    let (devices, descriptions, data', names, file, _) =
      delete_device_lem o a d c keyed found alone in
    file

-- If the caches were saved and a device is deleted after that, then the next process reads all
-- descriptions as they were saved, those of the deleted device too.
pub delete_device-restart :
    (o : Outside) (a : Text) (d : Device) (c : Central)
    → IsFaithful o.device_json
    → (o.device_json.hash c.device_descriptions.raw_device_descriptions
        == c.device_file.last_hash_saved)
      ≡ false
    → o.device_json.hash c.device_descriptions.raw_device_descriptions
      ≢ o.device_json.hash o.device_json.nothing
    → IsKeyed c.devices
    → lookup a c.devices ≡ some d
    → all (λ b. a == b || not (has b c.devices)) d.channels ≡ true
    → read_again o (delete_device o a (save_caches o true true c))
      ≡ c.device_descriptions.raw_device_descriptions
unfolding save_caches
delete_device-restart o a d c faithful changed some_data keyed found alone =
    let stays = file-delete_device o a d (save_caches o true true c) keyed found alone in
    ap (λ f. (load o.device_json true (init o.device_json f.file)).0.persistant_cache) stays
    ∙ saved_again o c faithful changed some_data
