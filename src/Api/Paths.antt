-- ===== src/Api/Paths.antt =====
-- The paths of the client's requests: what the backend's router sees as segments.
use agentleh_app.Base.{
  ℕ, Bool, true, not, ◌&&◌, ◌||◌, Option, none, some, any, is_empty, text_eq, span_digits,
  digits_value, if◌then◌else◌, List, [], ◌∷◌, ◌++◌, Text, codes, decimal, decimal-lacks, lacks,
  split, split_from, split_from-append, All, ◌≡◌, refl, ◌∙◌, ap, arith, append_assoc,
}
use agentleh_app.Js.{Js}
use agentleh_app.Api.{Encoder, path}
use agentleh_app.Api.Bridges.{get_agent_bridges}

abbrev pub IsSegment : Text → Type 0
IsSegment s = lacks b'/' s ≡ true

split_from-path :
    (cur : Text) (segments : List Text)
    → All IsSegment segments
    → split_from b'/' cur (path segments) ≡ cur ∷ segments
unfolding path split_from
split_from-path cur [] h = refl
split_from-path cur (s ∷ segments) (h, hs) =
    ap (λ (l : List Text). cur ∷ l)
      (split_from-append b'/' [] s (path segments) h ∙ split_from-path s segments hs)

-- What a router reads off a path: a leading empty part, and then the segments.
pub segments_of : Text → List Text
segments_of url = split b'/' url

segments_of-path :
    (segments : List Text) → All IsSegment segments → segments_of (path segments) ≡ [] ∷ segments
unfolding segments_of split
segments_of-path segments h = split_from-path [] segments h

-- The path of an agent, with the segments behind its id.
abbrev pub under_agent : ℕ → Text → List Text → List Text
under_agent tenant_id agent rest =
    [] ∷ codes "api" ∷ codes "tenants" ∷ decimal tenant_id ∷ codes "agents" ∷ agent ∷ rest

-- `.` and `..`, which a browser takes out of a path.
abbrev pub is_dots : Text → Bool
is_dots s = text_eq s (codes ".") || text_eq s (codes "..")

-- What a router reads off the segments of an agent's path: the workspace, the agent, whose segment it decodes, and what
-- is asked of it.
unfoldable pub read_segments : (Text → Option Text) → List Text → Option (ℕ × Text × List Text)
read_segments decode (start ∷ api ∷ tenants ∷ tenant ∷ agents ∷ agent ∷ rest) =
    if is_empty start
      && text_eq api (codes "api")
      && text_eq tenants (codes "tenants")
      && is_empty (span_digits tenant).1
      && text_eq agents (codes "agents")
      && not (is_dots agent)
      && not (any is_dots rest)
    then elim (decode agent) [ none ↦ none | some id ↦ some (digits_value 0 tenant, id, rest) ]
    else none
read_segments decode _ = none

unfoldable pub read_address : (Text → Option Text) → Text → Option (ℕ × Text × List Text)
unfolding read_segments
read_address decode url = read_segments decode (segments_of url)

-- An agent's id that holds a slash is not one segment in the calls of the bridges panel, which do not encode it: the
-- part behind the slash is a segment of its own, so the call addresses another resource.
get_agent_bridges-slash :
    (enc : Encoder) (tenant_id : ℕ) (a b : Text)
    → IsSegment a
    → IsSegment b
    → segments_of (get_agent_bridges enc tenant_id (a ++ b'/' ∷ b)).url
      ≡ under_agent tenant_id a (b ∷ codes "bridges" ∷ [])
unfolding get_agent_bridges
get_agent_bridges-slash enc tenant_id a b ha hb =
    ap segments_of (slash_path tenant_id)
    ∙ segments_of-path
        (codes "api"
          ∷ codes "tenants"
          ∷ decimal tenant_id
          ∷ codes "agents"
          ∷ a
          ∷ b
          ∷ codes "bridges"
          ∷ [])
        (unfold codes lacks in
          (
            refl,
            (refl, (decimal-lacks b'/' tenant_id (omega arith), (refl, (ha, (hb, (refl, tt)))))),
          ))
  where
    slash_path :
        (t : ℕ)
        → path (
            codes "api"
            ∷ codes "tenants"
            ∷ decimal t
            ∷ codes "agents"
            ∷ (a ++ b'/' ∷ b)
            ∷ codes "bridges"
            ∷ [])
          ≡ path (
              codes "api"
              ∷ codes "tenants"
              ∷ decimal t
              ∷ codes "agents"
              ∷ a
              ∷ b
              ∷ codes "bridges"
              ∷ [])
    slash_path t = unfold path in simp append_assoc
