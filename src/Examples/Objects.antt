-- ===== src/Examples/Objects.antt =====
-- Singletons, and the answers of AppCallBack, at concrete inputs.
use mars_wrapper.Prelude.{ℕ, ◌≡◌, ◌≢◌, List, [], ◌∷◌, ◌++◌, arith, refl, true, false, some}
use mars_wrapper.App.{
  ProxyInfo, proxy_socks5, default_proxy, app_callback, get_proxy_info, get_device_info,
  proxy_is_valid,
}
use mars_wrapper.Singleton.{Singleton, Use, gets, releases, no_instance, use_all}
use mars_wrapper.Singleton.Race.{
  access_all, call_of, before, answered_early, answered_late, instances_race,
}

abbrev uses : List Use
uses = gets ∷ gets ∷ releases ∷ releases ∷ gets ∷ []

-- The ProxyInfo that the mars library begins with is valid, and one for a proxy without an address is not;
-- AppCallBack leaves either as it was.
abbrev no_address : ProxyInfo
no_address = record default_proxy { type = proxy_socks5; port = 1080 }

proxy_is_valid_test :
    ((app_callback.get_proxy_info [] default_proxy).0 ≡ false)
    × (proxy_is_valid ((app_callback.get_proxy_info [] default_proxy).1) ≡ true)
    × (proxy_is_valid ((app_callback.get_proxy_info [] no_address).1) ≡ false)
unfolding get_proxy_info proxy_is_valid
proxy_is_valid_test = (refl, refl, refl)

device_info_test : app_callback.get_device_info.devicetype ≡ 1 ∷ []
unfolding get_device_info
device_info_test = refl

instances_race_example :
    (p : ℕ) × (q : ℕ) × (v : Singleton) × (p ≢ q)
    × ((access_all (call_of 1 ++ call_of 2) (before no_instance)).given
        ≡ (2, some p) ∷ (1, some p) ∷ [])
    × ((access_all (answered_early 1 2) (before no_instance)).given
        ≡ (2, some q) ∷ (1, some p) ∷ [])
    × ((access_all (answered_late 1 2) (before no_instance)).given ≡ (2, some q) ∷ (1, some q) ∷ [])
    × ((access_all (answered_early 1 2) (before no_instance)).shared
        ≡ (access_all (answered_late 1 2) (before no_instance)).shared)
    × ((access_all (answered_late 1 2) (before no_instance)).shared.current ≡ some q)
    × (use_all uses ((access_all (answered_late 1 2) (before no_instance)).shared) ≡ some v)
    × (v.alive p ≡ true)
    × (v.current ≢ some p)
instances_race_example = instances_race no_instance 1 2 (omega arith) refl uses
