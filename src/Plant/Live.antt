-- ===== src/Plant/Live.antt =====
-- app/services/live_reading.py: the reading that a plant's state is taken from. What the demo memory,
-- the database and the OPC client answer are arguments; `none` where there is nothing, or no session,
-- or an error.
use khalij_intelligent_energ.Base.{
  ℕ, String, true, ◌≡◌, refl, Option, none, some, or_else, is_empty, arith, if◌then◌else◌,
}
use khalij_intelligent_energ.Base.Float.{FloatOps}
use khalij_intelligent_energ.Config.{Settings, allow_demo_memory}
use khalij_intelligent_energ.Plant.Physics.{Measured, enrich_reading}

-- A payload or a row; an absent key is `none`.
pub record Payload (F : Type 0) : Type 0 where
  pub time : Option ℕ
  pub electricity_power_mw : Option F
  pub fuel_gas_flow_km3h : Option F
  pub steam_flow_tonh : Option F
  pub feed_flow_tonh : Option F
  pub reactor_temp_c : Option F
  pub pressure_bar : Option F
  pub energy_intensity_kgoe_ton : Option F
  pub carbon_emission_kgco2_ton : Option F
  pub energy_efficiency_percent : Option F
  pub source : Option String
  pub quality : Option String

pub record LiveReading (F : Type 0) : Type 0 where
  pub time : ℕ
  pub plant_code : String
  pub measured : Measured F
  pub pressure_bar : Option F
  pub energy_intensity_kgoe_ton : F
  pub carbon_emission_kgco2_ton : Option F
  pub energy_efficiency_percent : F
  pub source : String
  pub quality : Option String

-- `str(payload.get("source") or source)`
abbrev pub source_or : Option String → String → String
source_or none source = source
source_or (some text) source = if is_empty text then source else text

module _ {F : Type 0} ⦃fl : FloatOps F⦄ where
  open fl use {eq, lit}

  -- `payload.get(key) or default` on a number: a zero counts as absent.
  abbrev pub number_or : Option F → F → F
  number_or none default = default
  number_or (some x) default = if eq x (lit 0 0) then default else x

  unfoldable pub measured_of : Payload F → Measured F
  measured_of p = record {
    electricity_power_mw = number_or p.electricity_power_mw (lit 15 0);
    fuel_gas_flow_km3h = number_or p.fuel_gas_flow_km3h (lit 100 0);
    steam_flow_tonh = number_or p.steam_flow_tonh (lit 30 0);
    feed_flow_tonh = number_or p.feed_flow_tonh (lit 100 0);
    reactor_temp_c = number_or p.reactor_temp_c (lit 400 0);
  }

  unfoldable pub from_payload : ℕ → String → Payload F → String → LiveReading F
  unfolding measured_of
  from_payload now code p source =
      let derived = enrich_reading (measured_of p) in
      record {
        time = or_else p.time now;
        plant_code = code;
        measured = measured_of p;
        pressure_bar = p.pressure_bar;
        energy_intensity_kgoe_ton =
            number_or p.energy_intensity_kgoe_ton derived.energy_intensity_kgoe_ton;
        carbon_emission_kgco2_ton =
            some (or_else p.carbon_emission_kgco2_ton derived.carbon_emission_kgco2_ton);
        energy_efficiency_percent =
            number_or p.energy_efficiency_percent derived.energy_efficiency_percent;
        source = source_or p.source source;
        quality = p.quality;
      }

  -- The demo memory's reading, where it may be used and has one.
  abbrev pub from_memory : Settings F → ℕ → String → Option (Payload F) → Option (LiveReading F)
  from_memory cfg now code none = none
  from_memory cfg now code (some p) =
      if allow_demo_memory cfg
      then some (from_payload now code p (source_or p.source "memory"))
      else none

  -- What is left when neither the memory nor the database has a reading: the memory again, which
  -- may have one by now, and the OPC client. The second result is what is put into the memory.
  abbrev pub from_opc :
      Settings F
      → ℕ
      → String
      → Option (LiveReading F)
      → Payload F
      → LiveReading F × Option (Payload F)
  from_opc cfg now code (some live) snap = (live, none)
  from_opc cfg now code none snap =
      let live = from_payload now code snap (source_or snap.source "simulator") in
      (
        live,
        if allow_demo_memory cfg then some (record snap { source = some live.source }) else none,
      )

  abbrev pub from_database :
      Settings F
      → ℕ
      → String
      → Option (Payload F)
      → Option (Payload F)
      → Payload F
      → LiveReading F × Option (Payload F)
  from_database cfg now code (some row) memory_later snap = (from_payload now code row "db", none)
  from_database cfg now code none memory_later snap =
      from_opc cfg now code (from_memory cfg now code memory_later) snap

  abbrev pub from_sources :
      Settings F
      → ℕ
      → String
      → Option (LiveReading F)
      → Option (Payload F)
      → Option (Payload F)
      → Payload F
      → LiveReading F × Option (Payload F)
  from_sources cfg now code (some live) db memory_later snap = (live, none)
  from_sources cfg now code none db memory_later snap =
      from_database cfg now code db memory_later snap

  unfoldable pub resolve_live_reading :
      Settings F
      → ℕ
      → String
      → Option (Payload F)
      → Option (Payload F)
      → Option (Payload F)
      → Payload F
      → LiveReading F × Option (Payload F)
  resolve_live_reading cfg now code memory db memory_later snap =
      from_sources cfg now code (from_memory cfg now code memory) db memory_later snap

  no_memory :
      (cfg : Settings F) (now : ℕ) (code : String) (memory : Option (Payload F))
      → cfg.plant_connect ≡ true
      → from_memory cfg now code memory ≡ none
  unfolding allow_demo_memory
  no_memory cfg now code none h = refl
  no_memory cfg now code (some p) h = ground arith

  -- Connected to a plant, what the demo memory holds does not change a reading, and nothing is put
  -- into it.
  pub plant_connect_ignores_memory :
      (cfg : Settings F) (now : ℕ) (code : String) (memory db memory_later : Option (Payload F))
      (snap : Payload F)
      → cfg.plant_connect ≡ true
      → (resolve_live_reading cfg now code memory db memory_later snap
          ≡ resolve_live_reading cfg now code none db none snap)
        × ((resolve_live_reading cfg now code memory db memory_later snap).1 ≡ none)
  unfolding resolve_live_reading allow_demo_memory
  plant_connect_ignores_memory cfg now code memory (some row) memory_later snap h =
      let first = no_memory cfg now code memory h in (ground arith, ground arith)
  plant_connect_ignores_memory cfg now code memory none memory_later snap h =
      let first = no_memory cfg now code memory h in
      let second = no_memory cfg now code memory_later h in (ground arith, ground arith)

  -- A payload that measures a fuel gas flow of zero gives the same reading as one that measures none:
  -- a flow of 100, with the intensities and the efficiency that follow from it.
  pub zero_flow_replaced :
      (now : ℕ) (code : String) (p : Payload F) (source : String) (x : F)
      → eq x (lit 0 0) ≡ true
      → (from_payload now code (record p { fuel_gas_flow_km3h = some x }) source
          ≡ from_payload now code (record p { fuel_gas_flow_km3h = none }) source)
        × ((from_payload now code
              (record p { fuel_gas_flow_km3h = some x })
              source).measured.fuel_gas_flow_km3h
            ≡ lit 100 0)
  unfolding from_payload measured_of
  zero_flow_replaced now code p source x z =
      let read : number_or (some x) (lit 100 0) ≡ lit 100 0 = ground arith in (rw read refl, read)
