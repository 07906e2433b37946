-- ===== src/Spells/Agent.antt =====
-- genai_agent_rag.py: `GenAiAgentRag`, an agent that answers from the documents of a bucket. A
-- resource refers to another one by its name, and a bucket is known by its name.
use cloudspells.Common.{Bool, true, Option, none, some, [], ◌∷◌}
use cloudspells.Common.Text.{Text, codes}
use cloudspells.Naming.{create_resource_name}
use cloudspells.Tagging.{Tags, create_freeform_tags}
use cloudspells.Base.{BaseResource, new_base_resource}
use cloudspells.Spells.Outputs.{Assigned, Exports, plain, output_key}

pub record AgentArgs : Type 0 where
  pub name : Text
  pub compartment_id : Text
  pub namespace : Text
  pub bucket_name : Option Text
  pub welcome_message : Option Text
  pub stack_name : Option Text

pub record DocumentBucket : Type 0 where
  pub name : Text
  pub compartment_id : Text
  pub namespace : Text
  pub access_type : Text
  pub storage_tier : Text
  pub freeform_tags : Tags

-- A resource of the agent, in the compartment that the spell is given.
pub record AgentResource : Type 0 where
  pub display_name : Text
  pub compartment_id : Text
  pub freeform_tags : Tags

pub record DataSource : Type 0 where
  pub resource : AgentResource
  pub knowledge_base : Text
  pub namespace : Text
  pub bucket : Text

pub record RagTool : Type 0 where
  pub resource : AgentResource
  pub agent : Text
  pub knowledge_base : Text

pub record AgentEndpoint : Type 0 where
  pub resource : AgentResource
  pub agent : Text
  pub should_enable_citation : Bool

pub record GenAiAgentRag : Type 0 where
  pub base : BaseResource
  pub bucket : Option DocumentBucket
  pub document_bucket_name : Text
  pub knowledge_base : AgentResource
  pub data_source : DataSource
  pub agent : AgentResource
  pub welcome_message : Option Text
  pub rag_tool : RagTool
  pub endpoint : AgentEndpoint

-- A bucket is made where no name is given.
unfoldable pub document_bucket : BaseResource → AgentArgs → Option DocumentBucket
document_bucket b a =
    let name = create_resource_name b.namer (codes "docs") in
    elim a.bucket_name [
      | some existing ↦ none
      | none ↦ some (record {
        name = name;
        compartment_id = a.compartment_id;
        namespace = a.namespace;
        access_type = codes "NoPublicAccess";
        storage_tier = codes "Standard";
        freeform_tags = create_freeform_tags b.tagger name (codes "bucket") none;
      })
    ]

unfoldable pub resolved_bucket_name : BaseResource → AgentArgs → Text
resolved_bucket_name b a = elim a.bucket_name [
  | some existing ↦ existing
  | none ↦ create_resource_name b.namer (codes "docs")
]

unfoldable pub agent_resource : BaseResource → AgentArgs → Text → Text → AgentResource
agent_resource b a suffix type =
    let name = create_resource_name b.namer suffix in
    record {
      display_name = name;
      compartment_id = a.compartment_id;
      freeform_tags = create_freeform_tags b.tagger name type none;
    }

-- `GenAiAgentRag(…)`, where `current` is the name of the current stack
unfoldable pub gen_ai_agent_rag : Text → AgentArgs → GenAiAgentRag
unfolding document_bucket resolved_bucket_name agent_resource
gen_ai_agent_rag current a =
    let b =
      new_base_resource current (codes "custom:genai:GenAiAgentRag") a.name (some a.compartment_id)
        a.stack_name none in
    let knowledge_base = agent_resource b a (codes "kb") (codes "knowledge-base") in
    let agent = agent_resource b a (codes "agent") (codes "agent") in
    record {
      base = b;
      bucket = document_bucket b a;
      document_bucket_name = resolved_bucket_name b a;
      knowledge_base = knowledge_base;
      data_source = record {
        resource = agent_resource b a (codes "ds") (codes "data-source");
        knowledge_base = knowledge_base.display_name;
        namespace = a.namespace;
        bucket = resolved_bucket_name b a;
      };
      agent = agent;
      welcome_message = a.welcome_message;
      rag_tool = record {
        resource = agent_resource b a (codes "rag-tool") (codes "tool");
        agent = agent.display_name;
        knowledge_base = knowledge_base.display_name;
      };
      endpoint = record {
        resource = agent_resource b a (codes "endpoint") (codes "endpoint");
        agent = agent.display_name;
        should_enable_citation = true;
      };
    }

unfoldable pub export_agent : Assigned → GenAiAgentRag → Exports
unfolding output_key
export_agent at g =
    let n = g.base.namer in
    (output_key n (codes "endpoint_id"), plain (at.id g.endpoint.resource.display_name))
    ∷ (output_key n (codes "agent_id"), plain (at.id g.agent.display_name))
    ∷ (output_key n (codes "knowledge_base_id"), plain (at.id g.knowledge_base.display_name))
    ∷ (output_key n (codes "document_bucket_name"), plain g.document_bucket_name)
    ∷ []
