-- ===== src/Manifest/Loaders/Names.antt =====
-- The texts of the PFP vectors for the values of the fields, and that tests/vector_pfp_codec.rs reads just
-- these.
use bind.Common.{ℕ, ◌≡◌, refl, ◌∙◌, ap, List, if◌then◌else◌, Bool-cases, inl, inr, ok}
use bind.Common.Bytes.{bytes_eq, bytes_eq→eq}
use bind.Config.{codes}
use bind.Pfp
use bind.Pfp.Enums.{
  Modality, RiskLevel, BodyStance, ProximityEdge, OutputDest, OverrideFlag, cognitive, render,
  sensor_feed, executive, low, medium, critical, catastrophic, unknown, standing, moving, seated,
  safe, warning, danger, critical_edge, internal, external, normal, hard_override,
}
use bind.Vectors.Encoded.{PfpCase, case_header}
use bind.Manifest.Passes.{Run, bind_passes, ok_injective}
use bind.Manifest.Loaders.Pfp.{Input, modality, risk, stance, edge, dest, override_flag, header_of}

-- `{:?}` of the fields' types.
abbrev pub modality_name : Modality → List ℕ
modality_name cognitive = codes "Cognitive"
modality_name render = codes "Render"
modality_name executive = codes "Executive"
modality_name sensor_feed = codes "SensorFeed"

abbrev pub risk_level_name : RiskLevel → List ℕ
risk_level_name low = codes "Low"
risk_level_name medium = codes "Medium"
risk_level_name critical = codes "Critical"
risk_level_name catastrophic = codes "Catastrophic"

abbrev pub body_stance_name : BodyStance → List ℕ
body_stance_name seated = codes "Seated"
body_stance_name standing = codes "Standing"
body_stance_name moving = codes "Moving"
body_stance_name unknown = codes "Unknown"

abbrev pub proximity_edge_name : ProximityEdge → List ℕ
proximity_edge_name safe = codes "Safe"
proximity_edge_name warning = codes "Warning"
proximity_edge_name danger = codes "Danger"
proximity_edge_name critical_edge = codes "CriticalEdge"

abbrev pub output_dest_name : OutputDest → List ℕ
output_dest_name internal = codes "Internal"
output_dest_name external = codes "External"

abbrev pub override_flag_name : OverrideFlag → List ℕ
override_flag_name normal = codes "Normal"
override_flag_name hard_override = codes "HardOverride"

pub named_modality : (m : Modality) → modality (modality_name m) ≡ ok m
unfolding modality
named_modality cognitive = refl
named_modality render = refl
named_modality executive = refl
named_modality sensor_feed = refl

pub named_risk : (r : RiskLevel) → risk (risk_level_name r) ≡ ok r
unfolding risk
named_risk low = refl
named_risk medium = refl
named_risk critical = refl
named_risk catastrophic = refl

pub named_stance : (b : BodyStance) → stance (body_stance_name b) ≡ ok b
unfolding stance
named_stance seated = refl
named_stance standing = refl
named_stance moving = refl
named_stance unknown = refl

pub named_edge : (p : ProximityEdge) → edge (proximity_edge_name p) ≡ ok p
unfolding edge
named_edge safe = refl
named_edge warning = refl
named_edge danger = refl
named_edge critical_edge = refl

pub named_dest : (d : OutputDest) → dest (output_dest_name d) ≡ ok d
unfolding dest
named_dest internal = refl
named_dest external = refl

pub named_override : (o : OverrideFlag) → override_flag (override_flag_name o) ≡ ok o
unfolding override_flag
named_override normal = refl
named_override hard_override = refl

-- A text that is compared with names in turn is the name of the value that comes out.
pick :
    {A : Type 0} (name : A → List ℕ) (s : List ℕ) (a m : A) (rest : Run A)
    → (◌≡◌ {A = Run A} rest (ok m) → s ≡ name m)
    → ◌≡◌ {A = Run A} (if bytes_eq s (name a) then ok a else rest) (ok m)
    → s ≡ name m
pick name s a m rest later h = elim (Bool-cases (bytes_eq s (name a))) [
  | inl same ↦ bytes_eq→eq s (name a) same ∙ ap name (ok_injective a m (rw same at h))
  | inr other ↦ later (rw other at h)
]

read_modality : (s : List ℕ) (m : Modality) → modality s ≡ ok m → s ≡ modality_name m
unfolding modality
read_modality s m = pick modality_name s cognitive m _ (
    pick modality_name s render m _
      (pick modality_name s executive m _ (pick modality_name s sensor_feed m _ (λ e. cc))))

read_risk : (s : List ℕ) (r : RiskLevel) → risk s ≡ ok r → s ≡ risk_level_name r
unfolding risk
read_risk s r = pick risk_level_name s low r _ (
    pick risk_level_name s medium r _
      (pick risk_level_name s critical r _ (pick risk_level_name s catastrophic r _ (λ e. cc))))

read_stance : (s : List ℕ) (b : BodyStance) → stance s ≡ ok b → s ≡ body_stance_name b
unfolding stance
read_stance s b = pick body_stance_name s seated b _ (
    pick body_stance_name s standing b _
      (pick body_stance_name s moving b _ (pick body_stance_name s unknown b _ (λ e. cc))))

read_edge : (s : List ℕ) (p : ProximityEdge) → edge s ≡ ok p → s ≡ proximity_edge_name p
unfolding edge
read_edge s p = pick proximity_edge_name s safe p _ (
    pick proximity_edge_name s warning p _ (
      pick proximity_edge_name s danger p _
        (pick proximity_edge_name s critical_edge p _ (λ e. cc))))

read_dest : (s : List ℕ) (d : OutputDest) → dest s ≡ ok d → s ≡ output_dest_name d
unfolding dest
read_dest s d =
    pick output_dest_name s internal d _ (pick output_dest_name s external d _ (λ e. cc))

read_override_flag :
    (s : List ℕ) (o : OverrideFlag) → override_flag s ≡ ok o → s ≡ override_flag_name o
unfolding override_flag
read_override_flag s o =
    pick override_flag_name s normal o _ (pick override_flag_name s hard_override o _ (λ e. cc))

-- The input of a case.
abbrev pub declared_input : PfpCase → Input
declared_input c = record {
  modality = modality_name c.modality;
  risk_level = risk_level_name c.risk;
  body_stance = body_stance_name c.stance;
  proximity_edge = proximity_edge_name c.edge;
  output_dest = output_dest_name c.dest;
  override_flag = override_flag_name c.override_flag;
  replay_enable = c.replay_enable;
}

pub header_of-declared_input : (c : PfpCase) → header_of (declared_input c) ≡ ok (case_header c)
header_of-declared_input c =
    rw
      (
        named_modality c.modality,
        named_risk c.risk,
        named_stance c.stance,
        named_edge c.edge,
        named_dest c.dest,
        named_override c.override_flag,
      )
      refl

-- An input that is read is the input of some case.
pub header_of_read :
    (i : Input) (h : Pfp.PfpHeader) → header_of i ≡ ok h → (c : PfpCase) × (i ≡ declared_input c)
header_of_read i h e =
    let (m, is_m, e1) = bind_passes (modality i.modality) _ h e in
    let (r, is_r, e2) = bind_passes (risk i.risk_level) _ h e1 in
    let (b, is_b, e3) = bind_passes (stance i.body_stance) _ h e2 in
    let (p, is_p, e4) = bind_passes (edge i.proximity_edge) _ h e3 in
    let (d, is_d, e5) = bind_passes (dest i.output_dest) _ h e4 in
    let (o, is_o, e6) = bind_passes (override_flag i.override_flag) _ h e5 in
    (
      record {
        modality = m;
        risk = r;
        stance = b;
        edge = p;
        dest = d;
        override_flag = o;
        replay_enable = i.replay_enable;
      },
      λ k. record {
        modality = read_modality i.modality m is_m k;
        risk_level = read_risk i.risk_level r is_r k;
        body_stance = read_stance i.body_stance b is_b k;
        proximity_edge = read_edge i.proximity_edge p is_p k;
        output_dest = read_dest i.output_dest d is_d k;
        override_flag = read_override_flag i.override_flag o is_o k;
        replay_enable = i.replay_enable;
      },
    )
