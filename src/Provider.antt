-- ===== src/Provider.antt =====
-- src/provider: the filters that a provider is enabled with.
-- Children: EventFilter (the descriptors of filters), KernelProviders (the constants of kernel
-- providers), Builder (providers and how they are built).
pub mod EventFilter
pub mod KernelProviders
pub mod Builder
mod Tests
