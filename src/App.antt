-- ===== src/App.antt =====
-- src/proxy/app_callback.h and src/proxy/app_callback.cpp: what the mars library asks of the program,
-- with the structures of libs/mars/include/mars/app/app.h and comm/comm_data.h that the answers are.
use mars_wrapper.Prelude.{ℕ, ◌%◌, List, [], ◌∷◌, Bool, true, false, ltb, if◌then◌else◌}
use mars_wrapper.Prelude.Int.{ℤ, pos}

pub record AccountInfo : Type 0 where
  pub uin : ℤ
  pub username : List ℕ
  pub is_logoned : Bool

-- AccountInfo()
abbrev pub default_account : AccountInfo
default_account = record { uin = pos 0; username = []; is_logoned = false }

pub record DeviceInfo : Type 0 where
  pub devicename : List ℕ
  pub devicetype : List ℕ

abbrev pub default_device : DeviceInfo
default_device = record { devicename = []; devicetype = [] }

pub data ProxyType : Type 0 where
  proxy_none : ProxyType
  proxy_http_tunel : ProxyType
  proxy_socks5 : ProxyType
  proxy_http : ProxyType

-- A port is a uint16_t.
pub record ProxyInfo : Type 0 where
  pub type : ProxyType
  pub host : List ℕ
  pub ip : List ℕ
  pub port : ℕ
  pub username : List ℕ
  pub password : List ℕ

-- ProxyInfo()
abbrev pub default_proxy : ProxyInfo
default_proxy = record {
  type = proxy_none;
  host = [];
  ip = [];
  port = 0;
  username = [];
  password = [];
}

-- empty() of a text.
abbrev pub is_empty : List ℕ → Bool
is_empty [] = true
is_empty (c ∷ s) = false

-- IsValid: no proxy at all, or one with an address and a port.
unfoldable pub proxy_is_valid : ProxyInfo → Bool
proxy_is_valid info =
    let reachable =
      if is_empty info.ip
      then (if is_empty info.host then false else ltb 0 info.port)
      else ltb 0 info.port in
    elim info.type [
      | proxy_none ↦ true
      | proxy_http_tunel ↦ reachable
      | proxy_socks5 ↦ reachable
      | proxy_http ↦ reachable
    ]

-- The assignment of an `int` to a std::string takes it as one character.
abbrev pub assign_char : ℕ → List ℕ
assign_char c = c % 256 ∷ []

unfoldable pub get_app_file_path : List ℕ
get_app_file_path = []

unfoldable pub get_account_info : AccountInfo
get_account_info = default_account

unfoldable pub get_client_version : ℕ
get_client_version = 0

unfoldable pub get_device_info : DeviceInfo
get_device_info =
    let info = default_device in record info { devicename = []; devicetype = assign_char 1 }

-- GetProxyInfo of mars::app::Callback, which AppCallBack keeps: whether there is a proxy, and the caller's
-- ProxyInfo, which stays as it was.
unfoldable pub get_proxy_info : List ℕ → ProxyInfo → Bool × ProxyInfo
get_proxy_info host proxy_info = (false, proxy_info)

-- mars::app::Callback.
pub record AppCallback : Type 0 where
  pub get_proxy_info : List ℕ → ProxyInfo → Bool × ProxyInfo
  pub get_app_file_path : List ℕ
  pub get_account_info : AccountInfo
  pub get_client_version : ℕ
  pub get_device_info : DeviceInfo

-- AppCallBack, which `init` hands to the library.
abbrev pub app_callback : AppCallback
app_callback = record {
  get_proxy_info = get_proxy_info;
  get_app_file_path = get_app_file_path;
  get_account_info = get_account_info;
  get_client_version = get_client_version;
  get_device_info = get_device_info;
}
