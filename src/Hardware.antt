-- ===== src/Hardware.antt =====
-- frontend/src/pages/HardwareStatus.jsx, over api/hardware.js: the request for the state of the light
-- controller, and what the page makes of it. Temperatures are in hundredths of a degree.
pub mod Uptime
pub mod Failure
use gbc_smart_management.Base.{
  ℕ, suc, ◌+◌, ◌*◌, ◌/◌, ◌==◌, ltb, leb, ℤ, pos, negsuc, sub_ℕ, ltb_ℤ, Bool, true, false, not, ◌&&◌,
  ◌||◌, if◌then◌else◌, List, [], ◌∷◌, map, Option, none, some, String, str_eq, text_or,
}
use gbc_smart_management.Hardware.Uptime.{UptimeText, format_uptime}

-- A table, as the server and the controller have it.
pub record TableSync : Type 0 where
  pub table_id : ℕ
  pub is_synced : Bool
  pub backend_state : String
  pub hardware_state : String

pub record Metadata : Type 0 where
  pub free_heap : ℕ
  pub heap_size : ℕ
  pub rssi : ℤ
  pub ssid : String
  pub temperature : ℤ
  pub device_name : Option String
  pub ip_address : String
  pub uptime_millis : Option ℕ

pub record Health : Type 0 where
  pub status : Option String
  pub metadata : Metadata
  pub tables : Option (List TableSync)

pub record HardwareState : Type 0 where
  pub health_data : Option Health
  pub loading : Bool
  pub error : Bool

unfoldable pub initial_hardware : HardwareState
initial_hardware = record { health_data = none; loading = true; error = false }

-- `fetchHealth` up to its request.
unfoldable pub fetch_health : HardwareState → HardwareState
fetch_health s = record s { loading = true; error = false }

-- The rest of it: no answer where the request fails, and no data in an empty one.
unfoldable pub health_fetched : Option (Option Health) → HardwareState → HardwareState
health_fetched none s = record s { error = true; loading = false }
health_fetched (some h) s = record s { health_data = h; loading = false }

-- The button, which is disabled during a request.
unfoldable pub press_refresh : HardwareState → HardwareState
press_refresh s = if s.loading then s else fetch_health s

-- `healthData?.status`
unfoldable pub status_of : Option Health → Option String
status_of none = none
status_of (some h) = h.status

unfoldable pub is_online : HardwareState → Bool
is_online s = elim (status_of s.health_data) [ none ↦ false | some t ↦ str_eq t "ONLINE" ]

abbrev pub is_missing {ℓ} : {A : Type ℓ} → Option A → Bool
is_missing none = true
is_missing (some a) = false

-- The badge beside the heading: its text, and the colour of its frame.
pub data BadgeColour : Type 0 where
  accent sky danger : BadgeColour

unfoldable pub status_text : HardwareState → String
status_text s = text_or (status_of s.health_data) (if s.loading then "Connecting" else "Offline")

unfoldable pub status_colour : HardwareState → BadgeColour
status_colour s =
    if is_online s then accent else if s.loading && is_missing s.health_data then sky else danger

-- `signalLevel`, and which of the four parts of the icon are lit, from the outer arc to the dot.
unfoldable pub signal_level : ℤ → ℕ
signal_level rssi =
    if ltb_ℤ (sub_ℕ 0 60) rssi
    then 4
    else if ltb_ℤ (sub_ℕ 0 70) rssi
    then 3
    else if ltb_ℤ (sub_ℕ 0 80) rssi
    then 2
    else if ltb_ℤ (sub_ℕ 0 90) rssi
    then 1
    else 0

unfoldable pub lit_parts : ℕ → List Bool
lit_parts level = leb 4 level ∷ leb 3 level ∷ leb 2 level ∷ leb 1 level ∷ []

-- `(bytes / 1024).toFixed(1)`, in tenths.
unfoldable pub kilobytes : ℕ → ℕ
kilobytes bytes = (bytes * 10 + 512) / 1024

-- The width of a bar, as a part of the whole.
pub data BarWidth : Type 0 where
  full_width : BarWidth
  part : ℤ → ℕ → BarWidth
  no_number : BarWidth

-- `Math.min(100, (freeHeap / heapSize) * 100)`
unfoldable pub memory_width : ℕ → ℕ → BarWidth
memory_width free size =
    if size == 0
    then (if free == 0 then no_number else full_width)
    else if leb size free
    then full_width
    else part (pos free) size

-- `Number(temperature).toFixed(1)`, in tenths, half a tenth rounded away from 0.
unfoldable pub degrees : ℤ → ℤ
degrees (pos n) = pos ((n + 5) / 10)
degrees (negsuc n) = sub_ℕ 0 ((suc n + 5) / 10)

unfoldable pub temperature_status : ℤ → String
temperature_status t =
    if ltb_ℤ (pos 7000) t then "Warning" else if ltb_ℤ (pos 5000) t then "Elevated" else "Normal"

unfoldable pub temperature_width : ℤ → BarWidth
temperature_width t = if ltb_ℤ t (pos 10000) then part t 10000 else full_width

-- A card of the synchronisation: its mark, and the tone of the two states.
pub data Tone : Type 0 where
  warned lit dim : Tone

unfoldable pub tone_of : Bool → String → Tone
tone_of synced state = if not synced then warned else if str_eq state "ON" then lit else dim

pub record SyncCard : Type 0 where
  pub id : ℕ
  pub mark : String
  pub cloud : String × Tone
  pub hardware : String × Tone

unfoldable pub sync_card : TableSync → SyncCard
sync_card t = record {
  id = t.table_id;
  mark = if t.is_synced then "Synced" else "Mismatch";
  cloud = (t.backend_state, tone_of t.is_synced t.backend_state);
  hardware = (t.hardware_state, tone_of t.is_synced t.hardware_state);
}

unfoldable pub sync_cards : Option (List TableSync) → List SyncCard
sync_cards none = []
sync_cards (some ts) = map sync_card ts

-- The cards of the telemetry.
pub record Telemetry : Type 0 where
  pub free_kb : ℕ
  pub total_kb : ℕ
  pub memory_bar : BarWidth
  pub signal : List Bool
  pub network : String
  pub dbm : ℤ
  pub celsius : ℤ
  pub heat : String
  pub heat_bar : BarWidth
  pub device : String
  pub address : String
  pub uptime : Option UptimeText
  pub cards : List SyncCard

unfoldable pub telemetry_of : Health → Telemetry
telemetry_of h = record {
  free_kb = kilobytes h.metadata.free_heap;
  total_kb = kilobytes h.metadata.heap_size;
  memory_bar = memory_width h.metadata.free_heap h.metadata.heap_size;
  signal = lit_parts (signal_level h.metadata.rssi);
  network = h.metadata.ssid;
  dbm = h.metadata.rssi;
  celsius = degrees h.metadata.temperature;
  heat = temperature_status h.metadata.temperature;
  heat_bar = temperature_width h.metadata.temperature;
  device = text_or h.metadata.device_name "ESP32";
  address = h.metadata.ip_address;
  uptime = format_uptime h.metadata.uptime_millis;
  cards = sync_cards h.tables;
}

-- The part of the page below the heading.
pub data HardwareBody : Type 0 where
  hardware_offline : HardwareBody
  hardware_connecting : HardwareBody
  telemetry : Telemetry → HardwareBody

unfoldable pub hardware_body : HardwareState → HardwareBody
hardware_body s =
    if s.error || (is_missing s.health_data && not s.loading)
    then hardware_offline
    else elim s.health_data [ none ↦ hardware_connecting | some h ↦ telemetry (telemetry_of h) ]
