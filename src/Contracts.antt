-- ===== src/Contracts.antt =====
-- gridpulse/contracts: the validated shape of each source's response, and the rows made of it.
-- What pydantic does to a payload before these values exist is a parameter of the callers.
pub mod CarbonIntensity
pub mod Neso
pub mod Octopus
